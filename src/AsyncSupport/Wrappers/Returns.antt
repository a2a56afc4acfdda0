-- ===== src/AsyncSupport/Wrappers/Returns.antt =====
-- A call of an export returns to the host once: `call_task_return` is called exactly once before
-- its exit.
use pycage.Prelude.{
  ℕ, suc, ◌+◌, ◌<◌, ◌≡◌, ◌≢◌, refl, Option, none, some, List, [], ◌∷◌, arith, ap, ◌∙◌, ◌==◌, inl,
  inr, length, ◌⊎◌, Bool-cases,
}
use pycage.Result.{Result, ok, err}
use pycage.Loop.{Returns}
use pycage.AsyncSupport.{
  TaskId, Waitable, FutureState, Active, Guest, lookup, SupportError, reply, wait_on, drop_set,
  poll, callback_exit, loop_poll, first_poll, first_state, callback,
}
use pycage.AsyncSupport.Tasks.{RuntimeLaws, IsConsistent}
use pycage.AsyncSupport.Delivery.{Expected, woken, dropped, callback-Delivers}
use pycage.AsyncSupport.Code.{bit_or-wait}
use pycage.AsyncSupport.Polling.{Polled, loop_poll-Keeps}
use pycage.AsyncSupport.Wrappers.{Coroutines, runtime_of}
use pycage.AsyncSupport.Wrappers.Count.{
  is_root, roots, suspended_roots, roots-append, roots-remove, ReturnLaws, Counted, round-Counted,
}

module _ {W V E : Type 0} {coroutines : Coroutines W V E} (counts : ReturnLaws coroutines)
    (laws : RuntimeLaws (runtime_of coroutines)) where
  open counts use {returned}

  -- The results that the host was given and the tasks of `first_poll` of a call's state.
  abbrev pub IsOwing : ℕ → FutureState → W → Type 0
  IsOwing total s w =
      returned w + roots coroutines s.handles + suspended_roots coroutines s.futures ≡ total

  -- The host has all results when the call exits. While it waits, what is missing are the tasks of
  -- `first_poll` in the state that it has left in the slot.
  abbrev pub Owes : ℕ → Result ℕ SupportError → Guest W → Type 0
  Owes total (ok code) g =
      ((code ≡ callback_exit) × (returned g.world ≡ total))
      ⊎ ((s : FutureState) × (code ≢ callback_exit) × (g.slot ≡ some s) × IsOwing total s g.world)
  Owes total (err e) g = Unit {0}

  none_left : (fs : List (Waitable × TaskId)) → length fs ≡ 0 → suspended_roots coroutines fs ≡ 0
  none_left [] e = refl
  none_left (f ∷ fs) e = absurd (omega arith)

  drop_set-returned :
      (set : Option ℕ) (g : Guest W)
      → returned (drop_set (runtime_of coroutines) set g).world ≡ returned g.world
  unfolding drop_set
  drop_set-returned none g = refl
  drop_set-returned (some set) g = counts.set_drop-returned g.world set

  wait-Owes :
      (total : ℕ) (o : Option ℕ) (a : Active W)
      → IsOwing total a.tasks a.guest.world
      → Owes total (wait_on (runtime_of coroutines) o a).0 (wait_on (runtime_of coroutines) o a).1
  unfolding wait_on
  wait-Owes total none a c = tt
  wait-Owes total (some set) a c =
      inr (a.tasks, λ e. absurd (omega (arith, e, bit_or-wait set)), refl, c)

  reply-Owes :
      (total : ℕ) (a : Active W)
      → Polled laws (ok tt) a
      → Counted counts total [] a
      → Owes total (reply (runtime_of coroutines) a).0 (reply (runtime_of coroutines) a).1
  unfolding reply
  reply-Owes total a (h, drained, clean) c = elim (Bool-cases (a.tasks.pending_count == 0)) [
    | inl e ↦ rw e (
        inl (
          refl,
          omega (
            arith,
            c clean,
            ap (roots coroutines) drained,
            none_left a.tasks.futures (ground (arith, h.counted)),
            drop_set-returned a.tasks.waitable_set a.guest,
          ),
        ))
    | inr e ↦ rw e (wait-Owes total a.tasks.waitable_set a (omega (arith, c clean)))
  ]

  poll-Owes :
      (total fuel : ℕ) (s : FutureState) (g : Guest W)
      → laws.work g.world + length s.handles < fuel
      → IsConsistent laws 0 s g.world
      → (g.exception ≡ none → IsOwing total s g.world)
      → Returns (Owes total) (poll (runtime_of coroutines) fuel s g)
  unfolding poll
  poll-Owes total fuel s g enough h c =
      go (loop_poll (runtime_of coroutines) fuel (record { tasks = s; guest = g })) (
        loop_poll-Keeps laws (Counted counts total []) (round-Counted counts laws total) fuel
          (record { tasks = s; guest = g }) enough h (λ e. omega (arith, c e)))
    where
      go :
          (o : Option (Result (Unit {0}) SupportError × Active W))
          → Returns (λ r b. Polled laws r b × Counted counts total [] b) o
          → Returns (Owes total) (elim o [
            | none ↦ none
            | some (ok _, a) ↦ some (reply (runtime_of coroutines) a)
            | some (err e, a) ↦ some (err e, a.guest)
          ])
      go none q = q
      go (some (ok u, a)) (p, q) = reply-Owes total a p q
      go (some (err e, a)) q = tt

  -- Where the runtime and the wrapped coroutines keep their laws, the first step of a call of an
  -- export, for a task that is one of `first_poll`, ends with more fuel than the tasks that can be
  -- spawned and 1. If the call exits, the host was given exactly one result more; if it waits, the
  -- task of `first_poll` is still in the state that it leaves in the slot, or has returned.
  pub first_poll-Owes :
      (fuel : ℕ) (t : TaskId) (g : Guest W)
      → is_root coroutines (coroutines.export_index t) ≡ 1
      → laws.work g.world + 1 < fuel
      → Returns (Owes (suc (returned g.world))) (first_poll (runtime_of coroutines) fuel t g)
  unfolding first_poll
  first_poll-Owes fuel t g root enough =
      poll-Owes (suc (returned g.world)) fuel (first_state t) g enough
        (record { counted = omega arith; known = tt; distinct = tt; has_set = λ e. refl })
        (λ e. omega (arith, root))

  dropped-returned : (x : Waitable) (w : W) → returned (dropped laws x w) ≡ returned w
  dropped-returned x w =
      counts.drop-returned (coroutines.waitable_join w x 0) x ∙ counts.join-returned w x 0

  -- Waking a suspended task moves it to the queue.
  woken-IsOwing :
      (total : ℕ) (x : Waitable) (t : TaskId) (s : FutureState) (w : W)
      → lookup x s.futures ≡ some t
      → IsOwing total s w
      → IsOwing total (woken laws x t s) (dropped laws x w)
  woken-IsOwing total x t s w l c = omega (
    arith,
    c,
    roots-append coroutines s.handles (t ∷ []),
    roots-remove coroutines x t s.futures l,
    dropped-returned x w,
  )

  -- Under the same laws, from a consistent state in the slot, on an event that is expected and
  -- with more fuel than the tasks that are queued, woken or can be spawned, `callback` ends and
  -- keeps what the host is owed: the exit comes with the last result, and neither before nor after
  -- it is a result given twice.
  pub callback-Owes :
      (total fuel event : ℕ) (x : Waitable) (status : ℕ) (s : FutureState) (g : Guest W)
      → laws.work g.world + length s.handles + 1 < fuel
      → g.slot ≡ some s
      → IsConsistent laws 0 s g.world
      → Expected laws event x status s
      → IsOwing total s g.world
      → Returns (Owes total) (callback (runtime_of coroutines) fuel event x status g)
  callback-Owes total fuel event x status s g enough e c h q =
      let (s', w', answer, c', small, how) = callback-Delivers laws fuel event x status s g e c h in
      rw answer (
        poll-Owes total fuel s' (record g { slot = none; world = w' }) (omega arith) c'
          (λ _. still s' w' how))
    where
      still :
          (s' : FutureState) (w' : W)
          → (s' ≡ s) × (w' ≡ g.world)
            ⊎ ((y : Waitable) × (t : TaskId) × (lookup y s.futures ≡ some t)
                × (s' ≡ woken laws y t s)
                × (w' ≡ dropped laws y g.world))
          → IsOwing total s' w'
      still s' w' (inl (a, b)) = rw (a, b) q
      still s' w' (inr (y, t, l, a, b)) = rw (a, b) (woken-IsOwing total y t s g.world l q)
