-- ===== src/AsyncSupport/Wrappers/Serving.antt =====
-- A call of an export from its first poll to its exit, with a host that reports the return of one
-- subtask after the other.
use pycage.Prelude.{
  ℕ, zero, suc, ◌+◌, ◌<◌, ◌≤◌, ◌≡◌, ◌≢◌, refl, subst, Option, none, some, List, [], ◌∷◌, arith,
  length, ap, inl, inr, ◌==◌, Bool-cases, Option-cases, if◌then◌else◌,
}
use pycage.Result.{Result, ok, err}
use pycage.Loop.{Returns, Returns-and}
use pycage.AsyncSupport.{
  FutureState, Runtime, Guest, SupportError, recorded, ExceptionId, TaskId, Waitable, callback_exit,
  event_subtask, status_returned, lookup, first_poll, callback,
}
use pycage.AsyncSupport.Tasks.{RuntimeLaws}
use pycage.AsyncSupport.Delivery.{Expected}
use pycage.AsyncSupport.Callback.{IsIdle, Answers, first_poll-Answers, callback-Answers}
use pycage.AsyncSupport.Budget.{
  AwaitLaws, IsWithin, WaitsWithin, first_poll-Within, callback-Within,
}
use pycage.AsyncSupport.Wrappers.{Coroutines, runtime_of}
use pycage.AsyncSupport.Wrappers.Count.{ReturnLaws, is_root}
use pycage.AsyncSupport.Wrappers.Returns.{IsOwing, Owes, first_poll-Owes, callback-Owes}

module _ {W : Type 0} (runtime : Runtime W) (next : Guest W → Waitable) where
  -- The host calls `callback` until the call exits or raises, each time with the return of the
  -- subtask `next`, and at most as often as its fuel says.
  unfoldable pub serve :
      ℕ → ℕ → Option (Result ℕ SupportError × Guest W) → Option (Result ℕ SupportError × Guest W)
  serve n fuel none = none
  serve n fuel (some (err e, g)) = some (err e, g)
  serve zero fuel (some (ok code, g)) = if code == callback_exit then some (ok code, g) else none
  serve (suc n) fuel (some (ok code, g)) =
      let rest = serve n fuel (callback runtime fuel event_subtask (next g) status_returned g) in
      if code == callback_exit then some (ok code, g) else rest

module _ {W V E : Type 0} {coroutines : Coroutines W V E} (counts : ReturnLaws coroutines)
    (laws : RuntimeLaws (runtime_of coroutines)) (bounds : AwaitLaws (runtime_of coroutines)) where
  open counts use {returned}
  open laws use {work}
  open bounds use {awaits}

  -- The host reports a subtask that a task waits for.
  abbrev pub Reports : (Guest W → Waitable) → Type 0
  Reports next =
      (s : FutureState) (g : Guest W)
      → g.slot ≡ some s
      → IsIdle laws s g.world
      → lookup (next g) s.futures ≢ none

  -- The exit, with all results that the host is owed, or the recorded exception.
  abbrev pub Served : ℕ → Result ℕ SupportError → Guest W → Type 0
  Served total (ok code) g = (code ≡ callback_exit) × (returned g.world ≡ total)
  Served total (err e) g = (x : ExceptionId) × (e ≡ recorded x) × (g.exception ≡ some x)

  abbrev pub Outcome : ℕ → ℕ → ℕ → Result ℕ SupportError → Guest W → Type 0
  Outcome total left spawns r g =
      Answers laws r g × (Owes counts laws total r g × WaitsWithin laws bounds left spawns r g)

  -- What a call that waits has left in the slot.
  pub record Waits (total left spawns : ℕ) (g : Guest W) : Type 0 where
    pub state : FutureState
    pub held : g.slot ≡ some state
    pub idle : IsIdle laws state g.world
    pub owing : IsOwing counts laws total state g.world
    pub within : IsWithin laws bounds left spawns state g.world

  pub Outcome-exit :
      (total left spawns code : ℕ) (g : Guest W)
      → Outcome total left spawns (ok code) g
      → code ≡ callback_exit
      → Served total (ok code) g
  Outcome-exit total left spawns code g (a, (inl (e, r), w)) c = (c, r)
  Outcome-exit total left spawns code g (a, (inr (s, n, h, r), w)) c = absurd (n c)

  pub Outcome-Waits :
      (total left spawns code : ℕ) (g : Guest W)
      → Outcome total left spawns (ok code) g
      → code ≢ callback_exit
      → Waits total left spawns g
  Outcome-Waits total left spawns code g (inl e, (r, w)) c = absurd (c e)
  Outcome-Waits total left spawns code g (inr a, (inl (e, r), w)) c = absurd (c e)
  Outcome-Waits total left spawns code g (inr a, (inr r, inl e)) c = absurd (c e)
  Outcome-Waits total left spawns code g
        (inr (set, s, a, b, held, idle), (inr (t, n, h, owing), inr (u, k, within))) c =
      record {
        state = s;
        held = held;
        idle = idle;
        owing =
            subst (λ y. IsOwing counts laws total y g.world) {x = t} {y = s} (cc (h, held)) owing;
        within =
            subst (λ y. IsWithin laws bounds left spawns y g.world) {x = u} {y = s} (cc (k, held))
              within;
      }

  -- A call that waits can wait once more.
  pub Waits-left : (total left spawns : ℕ) (g : Guest W) → Waits total left spawns g → 0 < left
  Waits-left total left spawns g w =
      omega (arith, nonempty w.state.futures w.idle.waiting, w.within)
    where
      nonempty : {A : Type 0} (l : List A) → l ≢ [] → 0 < length l
      nonempty [] n = absurd (n refl)
      nonempty (x ∷ l) n = omega arith

  pub first_poll-Outcome :
      (fuel : ℕ) (t : TaskId) (g : Guest W)
      → is_root coroutines (coroutines.export_index t) ≡ 1
      → work g.world + 1 < fuel
      → Returns
          (Outcome (suc (returned g.world)) (awaits g.world) (work g.world))
          (first_poll (runtime_of coroutines) fuel t g)
  first_poll-Outcome fuel t g root enough =
      Returns-and (Answers laws)
        (λ r h.
          Owes counts laws (suc (returned g.world)) r h
          × WaitsWithin laws bounds (awaits g.world) (work g.world) r h)
        answer (first_poll-Answers laws fuel t g enough)
        (Returns-and (Owes counts laws (suc (returned g.world)))
          (WaitsWithin laws bounds (awaits g.world) (work g.world)) answer
          (first_poll-Owes counts laws fuel t g root enough)
          (first_poll-Within laws bounds fuel t g enough))
    where
      answer : Option (Result ℕ SupportError × Guest W)
      answer = first_poll (runtime_of coroutines) fuel t g

  module _ (next : Guest W → Waitable) (reports : Reports next) where
    callback-Outcome :
        (total left spawns fuel : ℕ) (g : Guest W)
        → spawns + 1 < fuel
        → Waits total (suc left) spawns g
        → Returns
            (Outcome total left spawns)
            (callback (runtime_of coroutines) fuel event_subtask (next g) status_returned g)
    callback-Outcome total left spawns fuel g enough w =
        elim (Option-cases (lookup (next g) w.state.futures)) [
          | inl e ↦ absurd (reports w.state g w.held w.idle e)
          | inr (t, e) ↦
              Returns-and (Answers laws)
                (λ r h. Owes counts laws total r h × WaitsWithin laws bounds left spawns r h) answer
                (callback-Answers laws fuel event_subtask (next g) status_returned w.state g
                  (omega (arith, w.within, ap length w.idle.drained)) w.held w.idle.consistent
                  expected)
                (Returns-and (Owes counts laws total) (WaitsWithin laws bounds left spawns) answer
                  (callback-Owes counts laws total fuel event_subtask (next g) status_returned
                    w.state g (omega (arith, w.within, ap length w.idle.drained)) w.held
                    w.idle.consistent expected w.owing)
                  (callback-Within laws bounds left spawns fuel (next g) t w.state g
                    (omega (arith, w.within)) w.held w.idle.drained w.idle.consistent e w.within))
        ]
      where
        answer : Option (Result ℕ SupportError × Guest W)
        answer = callback (runtime_of coroutines) fuel event_subtask (next g) status_returned g

        expected : Expected laws event_subtask (next g) status_returned w.state
        expected = inr (inr (refl, refl, reports w.state g w.held w.idle))

    serve_lem :
        (n total left spawns fuel : ℕ) (o : Option (Result ℕ SupportError × Guest W))
        → left ≤ n
        → spawns + 1 < fuel
        → Returns (Outcome total left spawns) o
        → Returns (Served total) (serve (runtime_of coroutines) next n fuel o)
    unfolding serve
    serve_lem n total left spawns fuel none l enough h = h
    serve_lem n total left spawns fuel (some (err e, g)) l enough h = h.0
    serve_lem zero total left spawns fuel (some (ok code, g)) l enough h =
        elim (Bool-cases (code == callback_exit)) [
          | inl e ↦ rw e (Outcome-exit total left spawns code g h (ground arith))
          | inr e ↦ absurd (
              omega (
                arith,
                Waits-left total left spawns g
                    (Outcome-Waits total left spawns code g h (ground arith)),
              ))
        ]
    serve_lem (suc n) total zero spawns fuel (some (ok code, g)) l enough h =
        elim (Bool-cases (code == callback_exit)) [
          | inl e ↦ rw e (Outcome-exit total zero spawns code g h (ground arith))
          | inr e ↦ absurd (
              omega (
                arith,
                Waits-left total zero spawns g
                    (Outcome-Waits total zero spawns code g h (ground arith)),
              ))
        ]
    serve_lem (suc n) total (suc left) spawns fuel (some (ok code, g)) l enough h =
        elim (Bool-cases (code == callback_exit)) [
          | inl e ↦ rw e (Outcome-exit total (suc left) spawns code g h (ground arith))
          | inr e ↦ rw e (
              serve_lem n total left spawns fuel
                (callback (runtime_of coroutines) fuel event_subtask (next g) status_returned g)
                (omega arith) enough
                (callback-Outcome total left spawns fuel g enough
                  (Outcome-Waits total (suc left) spawns code g h (ground arith))))
        ]

    -- Where the runtime and the wrapped coroutines keep their laws, the awaits of the coroutines
    -- are bounded, and the host answers each wait with the return of a subtask that a task waits
    -- for, a call of an export whose task is one of `first_poll` ends, with fuel for `_Loop.poll`
    -- above the tasks that can be spawned and 1, within as many callbacks as there are awaits left:
    -- it exits, and the host was given exactly one result more, or it raises the recorded
    -- exception.
    pub serve-Served :
        (n fuel : ℕ) (t : TaskId) (g : Guest W)
        → is_root coroutines (coroutines.export_index t) ≡ 1
        → awaits g.world ≤ n
        → work g.world + 1 < fuel
        → Returns (Served (suc (returned g.world))) (
            serve (runtime_of coroutines) next n fuel (first_poll (runtime_of coroutines) fuel t g))
    serve-Served n fuel t g root l enough =
        serve_lem n (suc (returned g.world)) (awaits g.world) (work g.world) fuel
          (first_poll (runtime_of coroutines) fuel t g) l enough
          (first_poll-Outcome fuel t g root enough)
