-- ===== src/AsyncSupport/Wrappers/Sequences.antt =====
-- A call of an export under any sequence of events that a host may send: spurious ones, starts of
-- subtasks, and returns in any order.
use pycage.Prelude.{
  ℕ, suc, ◌+◌, ◌-◌, ◌<◌, ◌≤◌, ◌≡◌, ◌≢◌, Option, none, some, List, [], ◌∷◌, arith, ap, inl, inr, ◌⊎◌,
  ◌==◌, Bool-cases, Option-cases, if◌then◌else◌, ◌&&◌, length,
}
use pycage.Result.{Result, ok, err}
use pycage.Loop.{Returns, Returns-and, Returns-weaken}
use pycage.AsyncSupport.{
  FutureState, Runtime, Guest, SupportError, recorded, ExceptionId, TaskId, Waitable, callback_exit,
  event_subtask, status_returned, lookup, first_poll, callback,
}
use pycage.AsyncSupport.Tasks.{RuntimeLaws}
use pycage.AsyncSupport.Delivery.{Expected}
use pycage.AsyncSupport.Callback.{IsIdle, Answers, callback-Answers}
use pycage.AsyncSupport.Budget.{AwaitLaws, WaitsWithin, callback-Within, idle_callback-Within}
use pycage.AsyncSupport.Wrappers.{Coroutines, runtime_of}
use pycage.AsyncSupport.Wrappers.Count.{is_root, ReturnLaws}
use pycage.AsyncSupport.Wrappers.Returns.{IsOwing, Owes, callback-Owes}
use pycage.AsyncSupport.Wrappers.Serving.{
  Outcome, Waits, Outcome-exit, Outcome-Waits, Waits-left, first_poll-Outcome,
}

-- The arguments of a call of `callback`.
pub record Event : Type 0 where
  pub event : ℕ
  pub waitable : Waitable
  pub status : ℕ

-- The events that tell of the return of a subtask.
abbrev pub weight : Event → ℕ
weight e = if e.event == event_subtask && e.status == status_returned then 1 else 0

abbrev pub returns_of : List Event → ℕ
returns_of [] = 0
returns_of (e ∷ es) = weight e + returns_of es

module _ {W : Type 0} (runtime : Runtime W) where
  -- A call that has come to its end gets no event.
  unfoldable pub deliver_next :
      ℕ
      → Event
      → Option (Result ℕ SupportError × Guest W)
      → Option (Result ℕ SupportError × Guest W)
  deliver_next fuel e none = none
  deliver_next fuel e (some (err x, g)) = some (err x, g)
  deliver_next fuel e (some (ok code, g)) =
      if code == callback_exit
      then some (ok code, g)
      else callback runtime fuel e.event e.waitable e.status g

  pub drive :
      ℕ
      → List Event
      → Option (Result ℕ SupportError × Guest W)
      → Option (Result ℕ SupportError × Guest W)
  drive fuel [] o = o
  drive fuel (e ∷ es) o = drive fuel es (deliver_next fuel e o)

module _ {W V E : Type 0} {coroutines : Coroutines W V E} (counts : ReturnLaws coroutines)
    (laws : RuntimeLaws (runtime_of coroutines)) (bounds : AwaitLaws (runtime_of coroutines)) where
  open counts use {returned}
  open laws use {work}
  open bounds use {awaits}

  -- Each event is expected when it is sent, by the state that the call has left in the slot.
  abbrev pub Suits : Event → Option (Result ℕ SupportError × Guest W) → Type 0
  Suits e none = Unit {0}
  Suits e (some (err x, g)) = Unit {0}
  Suits e (some (ok code, g)) =
      code ≢ callback_exit
      → (s : FutureState) → g.slot ≡ some s
      → Expected laws e.event e.waitable e.status s

  abbrev pub Fits : ℕ → List Event → Option (Result ℕ SupportError × Guest W) → Type 0
  Fits fuel [] o = Unit {0}
  Fits fuel (e ∷ es) o = Suits e o × Fits fuel es (deliver_next (runtime_of coroutines) fuel e o)

  -- The call has come to its end, with all results that the host is owed; or it waits for fewer
  -- returns than its coroutines had awaits left, and still owes what the host has not got; or the
  -- recorded exception is raised.
  abbrev pub Driven : ℕ → ℕ → Result ℕ SupportError → Guest W → Type 0
  Driven total open_waits (ok code) g =
      ((code ≡ callback_exit) × (returned g.world ≡ total))
      ⊎ ((s : FutureState) × (g.slot ≡ some s)
          × IsIdle laws s g.world
          × IsOwing counts laws total s g.world
          × (0 < open_waits))
  Driven total open_waits (err e) g = (x : ExceptionId) × (e ≡ recorded x) × (g.exception ≡ some x)

  Outcome-Driven :
      (total left spawns open_waits : ℕ)
      → left ≤ open_waits
      → (r : Result ℕ SupportError) (g : Guest W) → Outcome counts laws bounds total left spawns r g
      → Driven total open_waits r g
  Outcome-Driven total left spawns open_waits l (err e) g h = h.0
  Outcome-Driven total left spawns open_waits l (ok code) g h =
      elim (Bool-cases (code == callback_exit)) [
        | inl e ↦ inl (Outcome-exit counts laws bounds total left spawns code g h (ground arith))
        | inr e ↦
            let w = Outcome-Waits counts laws bounds total left spawns code g h (ground arith) in
            inr (
              w.state,
              w.held,
              w.idle,
              w.owing,
              omega (arith, l, Waits-left counts laws bounds total left spawns g w),
            )
      ]

  -- One event that is expected leads from a wait to the next one, or to the end.
  event-Within :
      (total left spawns fuel : ℕ) (e : Event) (g : Guest W)
      → spawns + 1 < fuel
      → (w : Waits counts laws bounds total left spawns g)
      → Expected laws e.event e.waitable e.status w.state
      → Returns
          (WaitsWithin laws bounds (left - weight e) spawns)
          (callback (runtime_of coroutines) fuel e.event e.waitable e.status g)
  event-Within total left spawns fuel e g enough w (inl h) =
      idle_callback-Within laws bounds (left - weight e) spawns fuel e.event e.waitable e.status
        w.state g (omega (arith, w.within, ap length w.idle.drained)) w.held (inl h)
        w.idle.consistent (ground (arith, w.within))
  event-Within total left spawns fuel e g enough w (inr (inl h)) =
      idle_callback-Within laws bounds (left - weight e) spawns fuel e.event e.waitable e.status
        w.state g (omega (arith, w.within, ap length w.idle.drained)) w.held (inr h)
        w.idle.consistent (ground (arith, w.within))
  event-Within total left spawns fuel e g enough w (inr (inr (h, k, n))) =
      elim (Option-cases (lookup e.waitable w.state.futures)) [
        | inl m ↦ absurd (n m)
        | inr (t, m) ↦
            rw (h, k)
              (callback-Within laws bounds (left - 1) spawns fuel e.waitable t w.state g
                (omega (arith, w.within)) w.held w.idle.drained w.idle.consistent m
                (omega (arith, w.within), w.within.1))
      ]

  callback-Outcome :
      (total left spawns fuel : ℕ) (e : Event) (g : Guest W)
      → spawns + 1 < fuel
      → (w : Waits counts laws bounds total left spawns g)
      → Expected laws e.event e.waitable e.status w.state
      → Returns
          (Outcome counts laws bounds total (left - weight e) spawns)
          (callback (runtime_of coroutines) fuel e.event e.waitable e.status g)
  callback-Outcome total left spawns fuel e g enough w expected =
      Returns-and (Answers laws)
        (λ r h. Owes counts laws total r h × WaitsWithin laws bounds (left - weight e) spawns r h)
        answer
        (callback-Answers laws fuel e.event e.waitable e.status w.state g
          (omega (arith, w.within, ap length w.idle.drained)) w.held w.idle.consistent expected)
        (Returns-and (Owes counts laws total) (WaitsWithin laws bounds (left - weight e) spawns)
          answer
          (callback-Owes counts laws total fuel e.event e.waitable e.status w.state g
            (omega (arith, w.within, ap length w.idle.drained)) w.held w.idle.consistent expected
            w.owing)
          (event-Within total left spawns fuel e g enough w expected))
    where
      answer : Option (Result ℕ SupportError × Guest W)
      answer = callback (runtime_of coroutines) fuel e.event e.waitable e.status g

  deliver_next-Outcome :
      (total left spawns fuel : ℕ) (e : Event) (o : Option (Result ℕ SupportError × Guest W))
      → spawns + 1 < fuel
      → Returns (Outcome counts laws bounds total left spawns) o
      → Suits e o
      → Returns
          (Outcome counts laws bounds total (left - weight e) spawns)
          (deliver_next (runtime_of coroutines) fuel e o)
  unfolding deliver_next
  deliver_next-Outcome total left spawns fuel e none enough h s = h
  deliver_next-Outcome total left spawns fuel e (some (err x, g)) enough h s = h
  deliver_next-Outcome total left spawns fuel e (some (ok code, g)) enough h s =
      elim (Bool-cases (code == callback_exit)) [
        | inl b ↦ rw b (h.0, (h.1.0, inl (ground arith)))
        | inr b ↦
            let w = Outcome-Waits counts laws bounds total left spawns code g h (ground arith) in
            rw b (
              callback-Outcome total left spawns fuel e g enough w
                (s (ground arith) w.state w.held))
      ]

  drive-Outcome :
      (es : List Event) (total left spawns open_waits fuel : ℕ)
      (o : Option (Result ℕ SupportError × Guest W))
      → spawns + 1 < fuel
      → left ≤ open_waits + returns_of es
      → Returns (Outcome counts laws bounds total left spawns) o
      → Fits fuel es o
      → Returns (Driven total open_waits) (drive (runtime_of coroutines) fuel es o)
  unfolding drive
  drive-Outcome [] total left spawns open_waits fuel o enough l h f =
      Returns-weaken (Outcome counts laws bounds total left spawns) (Driven total open_waits) o
        (Outcome-Driven total left spawns open_waits (omega (arith, l))) h
  drive-Outcome (e ∷ es) total left spawns open_waits fuel o enough l h (s, f) =
      drive-Outcome es total (left - weight e) spawns open_waits fuel
        (deliver_next (runtime_of coroutines) fuel e o) enough (omega (arith, l))
        (deliver_next-Outcome total left spawns fuel e o enough h s) f

  -- Where the runtime and the wrapped coroutines keep their laws and the awaits of the coroutines
  -- are bounded, a call of an export, whose task is one of `first_poll`, goes with fuel for
  -- `_Loop.poll` above the tasks that can be spawned and 1 through any sequence of events that are
  -- expected when they are sent, spurious ones and starts among them: it has come to its exit, and
  -- the host was given exactly one result more; or it waits in an idle state, the result is given
  -- or still owed by a task of that state, and fewer subtasks have returned than the coroutines
  -- had awaits left; or it has raised the recorded exception.
  pub drive-Driven :
      (fuel : ℕ) (t : TaskId) (g : Guest W) (es : List Event)
      → is_root coroutines (coroutines.export_index t) ≡ 1
      → work g.world + 1 < fuel
      → Fits fuel es (first_poll (runtime_of coroutines) fuel t g)
      → Returns
          (Driven (suc (returned g.world)) (awaits g.world - returns_of es))
          (drive (runtime_of coroutines) fuel es (first_poll (runtime_of coroutines) fuel t g))
  drive-Driven fuel t g es root enough f =
      drive-Outcome es (suc (returned g.world)) (awaits g.world) (work g.world)
        (awaits g.world - returns_of es) fuel (first_poll (runtime_of coroutines) fuel t g) enough
        (omega arith) (first_poll-Outcome counts laws bounds fuel t g root enough) f
