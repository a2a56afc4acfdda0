-- ===== src/AsyncSupport/Callback.antt =====
-- What the host gets back from `first_poll` and `callback`.
use pycage.Prelude.{
  ℕ, ◌+◌, ◌*◌, ◌<◌, ◌≡◌, ◌≢◌, refl, Option, none, some, [], arith, length, inl, inr, ◌⊎◌,
  Bool-cases, ap, ◌∙◌, ◌==◌,
}
use pycage.Result.{Result, ok, err}
use pycage.Loop.{Returns}
use pycage.AsyncSupport.{
  FutureState, Runtime, Guest, Active, SupportError, recorded, ExceptionId, TaskId, Waitable,
  callback_exit, callback_wait, loop_poll, reply, wait_on, poll, first_state, first_poll, callback,
}
use pycage.AsyncSupport.Code.{bit_or-wait}
use pycage.AsyncSupport.Dict.{is_none}
use pycage.AsyncSupport.Tasks.{RuntimeLaws, IsConsistent}
use pycage.AsyncSupport.Polling.{Polled, loop_poll-Polled}
use pycage.AsyncSupport.Delivery.{Expected, callback-Delivers}

module _ {W : Type 0} {runtime : Runtime W} (laws : RuntimeLaws runtime) where
  open laws use {work, outstanding}

  -- The state that the guest leaves with the host while it waits: tasks are suspended, and none is
  -- queued.
  pub record IsIdle (s : FutureState) (w : W) : Type 0 where
    pub consistent : IsConsistent laws 0 s w
    pub drained : s.handles ≡ []
    pub waiting : s.futures ≢ []

  -- What the host gets back: the code of an exit, or the code of a wait with the set that it is to
  -- wait on, which is that of the idle state in the context slot; or the recorded exception.
  abbrev pub Answers : Result ℕ SupportError → Guest W → Type 0
  Answers (ok code) g =
      (code ≡ callback_exit)
      ⊎ ((set : ℕ) × (s : FutureState) × (code ≡ callback_wait + set * 16)
          × (s.waitable_set ≡ some set)
          × (g.slot ≡ some s)
          × IsIdle s g.world)
  Answers (err e) g = (x : ExceptionId) × (e ≡ recorded x) × (g.exception ≡ some x)

  wait-Answers :
      (o : Option ℕ) (a : Active W)
      → a.tasks.waitable_set ≡ o
      → Polled laws (ok tt) a
      → a.tasks.pending_count ≢ 0
      → Answers (wait_on runtime o a).0 (wait_on runtime o a).1
  unfolding wait_on
  wait-Answers none a e p n =
      absurd (n (p.0.counted ∙ omega (arith, ap length p.1, p.0.has_set (ap is_none e))))
  wait-Answers (some set) a e p n = inr (
    set,
    a.tasks,
    bit_or-wait set,
    e,
    refl,
    record {
      consistent = p.0;
      drained = p.1;
      waiting = λ w. n (p.0.counted ∙ omega (arith, ap length p.1, ap length w));
    },
  )

  reply-Answers :
      (a : Active W) → Polled laws (ok tt) a → Answers (reply runtime a).0 (reply runtime a).1
  unfolding reply
  reply-Answers a p = elim (Bool-cases (a.tasks.pending_count == 0)) [
    | inl e ↦ rw e (inl refl)
    | inr e ↦ rw e (wait-Answers a.tasks.waitable_set a refl p (ground arith))
  ]

  poll-Answers :
      (fuel : ℕ) (s : FutureState) (g : Guest W)
      → work g.world + length s.handles < fuel
      → IsConsistent laws 0 s g.world
      → Returns Answers (poll runtime fuel s g)
  unfolding poll
  poll-Answers fuel s g enough c =
      go (loop_poll runtime fuel (record { tasks = s; guest = g }))
        (loop_poll-Polled laws fuel (record { tasks = s; guest = g }) enough c)
    where
      go :
          (o : Option (Result (Unit {0}) SupportError × Active W))
          → Returns (Polled laws) o
          → Returns Answers (elim o [
            | none ↦ none
            | some (ok _, a) ↦ some (reply runtime a)
            | some (err e, a) ↦ some (err e, a.guest)
          ])
      go none h = h
      go (some (ok u, a)) h = reply-Answers a h
      go (some (err e, a)) h = h

  -- Where the runtime keeps its laws and each step of a task waits for the host or ends,
  -- `first_poll` ends with more fuel than the tasks that are queued or can be spawned. It answers
  -- with the code of an exit, or with that of a wait on the set of the suspended tasks, whose
  -- state it leaves in the context slot; all that it raises is the recorded exception.
  pub first_poll-Answers :
      (fuel : ℕ) (t : TaskId) (g : Guest W)
      → work g.world + 1 < fuel
      → Returns Answers (first_poll runtime fuel t g)
  unfolding first_poll
  first_poll-Answers fuel t g enough =
      poll-Answers fuel (first_state t) g enough
        (record { counted = omega arith; known = tt; distinct = tt; has_set = λ e. refl })

  -- Where the runtime keeps its laws and each step of a task waits for the host or ends, from a
  -- consistent state in the context slot, and on an event that is expected then, `callback` ends
  -- with more fuel than the tasks that are queued, woken or can be spawned, and answers as
  -- `first_poll` does: it never raises an assertion, a key or an attribute error.
  pub callback-Answers :
      (fuel event : ℕ) (x : Waitable) (status : ℕ) (s : FutureState) (g : Guest W)
      → work g.world + length s.handles + 1 < fuel
      → g.slot ≡ some s
      → IsConsistent laws 0 s g.world
      → Expected laws event x status s
      → Returns Answers (callback runtime fuel event x status g)
  callback-Answers fuel event x status s g enough e c h =
      let (s', w', answer, c', small, _) = callback-Delivers laws fuel event x status s g e c h in
      rw answer (poll-Answers fuel s' (record g { slot = none; world = w' }) (omega arith) c')
