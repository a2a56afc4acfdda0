-- ===== src/AsyncSupport/Leaving.antt =====
-- What `_poll` keeps from its start to the state that it leaves in the slot, or to its end.
use pycage.Prelude.{
  ℕ, suc, ◌+◌, ◌<◌, ◌≡◌, ◌≢◌, refl, Option, none, some, [], arith, length, inl, inr, ◌⊎◌,
  Bool-cases, ◌==◌, ◌∙◌,
}
use pycage.Result.{Result, ok, err}
use pycage.Loop.{Returns}
use pycage.AsyncSupport.{
  FutureState, Runtime, Guest, Active, SupportError, TaskId, ExceptionId, End, suspends, parks,
  finishes, fails, callback_exit, await_result, end_step, run_task, loop_poll, reply, wait_on,
  drop_set, poll,
}
use pycage.AsyncSupport.Code.{bit_or-wait}
use pycage.AsyncSupport.Tasks.{RuntimeLaws, IsConsistent, run_task-eq, resumed}
use pycage.AsyncSupport.Polling.{Polled, round-Keeps, loop_poll-Keeps}

module _ {W : Type 0} {runtime : Runtime W} (laws : RuntimeLaws runtime)
    (J : FutureState → Option ExceptionId → W → Type 0) where
  abbrev Kept : Active W → Type 0
  Kept a = J a.tasks a.guest.exception a.guest.world × (a.guest.slot ≡ none)

  -- The slot is empty at the end of a call, which has no task pending, and has the state of a call
  -- that waits.
  abbrev pub Leaves : Result ℕ SupportError → Guest W → Type 0
  Leaves (ok code) g =
      (s : FutureState) × J s g.exception g.world
      × (((code ≡ callback_exit) × (g.slot ≡ none) × (s.pending_count ≡ 0))
          ⊎ ((code ≢ callback_exit) × (g.slot ≡ some s)))
  Leaves (err e) g = (s : FutureState) × J s g.exception g.world × (g.slot ≡ none)

  end_step-slot :
      (t : TaskId) (e : End) (a : Active W) → (end_step runtime t e a).guest.slot ≡ a.guest.slot
  unfolding end_step await_result
  end_step-slot t (suspends x) a = refl
  end_step-slot t parks a = refl
  end_step-slot t finishes a = refl
  end_step-slot t (fails e) a = refl

  run_task-slot : (t : TaskId) (a : Active W) → (run_task runtime a t).guest.slot ≡ a.guest.slot
  run_task-slot t a =
      rw (run_task-eq laws a t)
        (end_step-slot t (runtime.resume a.guest.world t).0.ended (resumed laws t a))

  wait-Leaves :
      (o : Option ℕ) (a : Active W)
      → Kept a
      → Leaves (wait_on runtime o a).0 (wait_on runtime o a).1
  unfolding wait_on
  wait-Leaves none a h = (a.tasks, h.0, h.1)
  wait-Leaves (some set) a h =
      (a.tasks, h.0, inr (λ e. absurd (omega (arith, e, bit_or-wait set)), refl))

  -- What every task keeps, and the drop of a set, `_poll` keeps.
  module _
      (keeps : (n : ℕ) (t : TaskId) (a : Active W)
        → IsConsistent laws (suc n) a.tasks a.guest.world
        → J a.tasks a.guest.exception a.guest.world
        → J
            (run_task runtime a t).tasks
            (run_task runtime a t).guest.exception
            (run_task runtime a t).guest.world)
      (emptied : (s : FutureState) (e : Option ExceptionId) (w : W)
        → J s e w
        → J (record s { handles = [] }) e w)
      (drops : (s : FutureState) (e : Option ExceptionId) (w : W) (set : ℕ)
        → J s e w
        → J s e (runtime.waitable_set_drop w set)) where
    exit-Leaves :
        (o : Option ℕ) (a : Active W)
        → Kept a
        → a.tasks.pending_count ≡ 0
        → Leaves (ok callback_exit) (drop_set runtime o a.guest)
    unfolding drop_set
    exit-Leaves none a h e = (a.tasks, h.0, inl (refl, h.1, e))
    exit-Leaves (some set) a h e =
        (a.tasks, drops a.tasks a.guest.exception a.guest.world set h.0, inl (refl, h.1, e))

    reply-Leaves : (a : Active W) → Kept a → Leaves (reply runtime a).0 (reply runtime a).1
    unfolding reply
    reply-Leaves a h = elim (Bool-cases (a.tasks.pending_count == 0)) [
      | inl e ↦ rw e (exit-Leaves a.tasks.waitable_set a h (ground arith))
      | inr e ↦ rw e (wait-Leaves a.tasks.waitable_set a h)
    ]

    pub poll-Leaves :
        (fuel : ℕ) (s : FutureState) (g : Guest W)
        → laws.work g.world + length s.handles < fuel
        → IsConsistent laws 0 s g.world
        → J s g.exception g.world
        → g.slot ≡ none
        → Returns Leaves (poll runtime fuel s g)
    unfolding poll
    poll-Leaves fuel s g enough c j free =
        go (loop_poll runtime fuel (record { tasks = s; guest = g })) (
          loop_poll-Keeps laws Kept
            (λ a h k.
              round-Keeps laws (λ _. Kept)
                (λ n t ts b c k. (keeps n t b c k.0, run_task-slot t b ∙ k.1)) a h
                (emptied a.tasks a.guest.exception a.guest.world k.0, k.1))
            fuel (record { tasks = s; guest = g }) enough c (j, free))
      where
        go :
            (o : Option (Result (Unit {0}) SupportError × Active W))
            → Returns (λ r b. Polled laws r b × Kept b) o
            → Returns Leaves (elim o [
              | none ↦ none
              | some (ok _, a) ↦ some (reply runtime a)
              | some (err e, a) ↦ some (err e, a.guest)
            ])
        go none q = q
        go (some (ok u, a)) (p, q) = reply-Leaves a q
        go (some (err e, a)) (p, q) = (a.tasks, q.0, q.1)
