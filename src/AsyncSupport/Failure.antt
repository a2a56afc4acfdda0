-- ===== src/AsyncSupport/Failure.antt =====
-- Events that `callback` does not take, and the exception that the loop keeps.
use pycage.Prelude.{
  ℕ, suc, ◌≡◌, ◌≢◌, refl, none, some, List, [], ◌∷◌, arith, inl, inr, Bool-cases, ◌==◌,
  if◌then◌else◌,
}
use pycage.Result.{err}
use pycage.Loop.{while}
use pycage.AsyncSupport.{
  FutureState, End, suspends, parks, finishes, fails, Runtime, Guest, Active, SupportError,
  recorded, not_implemented, assertion_error, attribute_error, ExceptionId, TaskId, Waitable,
  event_none, event_subtask, status_starting, status_started, status_returned, await_result,
  end_step, run_task, after_round, poll_round, loop_poll, poll, first_poll, first_state, callback,
}

-- An event of the host: its kind, its waitable and its status.
abbrev pub HostEvent : Type 0
HostEvent = ℕ × Waitable × ℕ

-- What a recorded exception becomes with the end of a step.
abbrev pub kept_by : ExceptionId → End → ExceptionId
kept_by x (fails e) = e
kept_by x e = x

module _ {W : Type 0} (runtime : Runtime W) where
  -- Each of these events is answered with an error that is not an exception of a task, and leaves
  -- the context slot empty and what the loop has recorded alone.
  abbrev pub AllRefused : ℕ → List HostEvent → Guest W → Type 0
  AllRefused fuel [] g = Unit {0}
  AllRefused fuel ((event, x, status) ∷ es) g =
      (e : SupportError) × (w : W) × (callback runtime fuel event x status g
        ≡ some (err e, record g { slot = none; world = w }))
      × ((y : ExceptionId) → e ≢ recorded y)
      × AllRefused fuel es (record g { slot = none; world = w })

  -- An event that finds the context slot empty.
  refused :
      (fuel event : ℕ) (x : Waitable) (status : ℕ) (g : Guest W)
      → g.slot ≡ none
      → (e : SupportError) × (w : W) × (callback runtime fuel event x status g
          ≡ some (err e, record g { slot = none; world = w }))
        × ((y : ExceptionId) → e ≢ recorded y)
  unfolding callback
  refused fuel event x status g n = elim (Bool-cases (event == event_none)) [
    | inl y ↦ (attribute_error, g.world, ground arith, λ z q. cc q)
    | inr y ↦ elim (Bool-cases (event == event_subtask)) [
      | inr u ↦ (not_implemented, g.world, ground arith, λ z q. cc q)
      | inl u ↦ elim (Bool-cases (status == status_starting)) [
        | inl a ↦ (assertion_error, g.world, ground arith, λ z q. cc q)
        | inr a ↦ elim (Bool-cases (status == status_started)) [
          | inl b ↦ (attribute_error, g.world, ground arith, λ z q. cc q)
          | inr b ↦ elim (Bool-cases (status == status_returned)) [
            | inl c ↦ (
              attribute_error,
              runtime.subtask_drop (runtime.waitable_join g.world x 0) x,
              ground arith,
              λ z q. cc q,
            )
            | inr c ↦ (not_implemented, g.world, ground arith, λ z q. cc q)
          ]
        ]
      ]
    ]
  ]

  empty-AllRefused :
      (fuel : ℕ) (es : List HostEvent) (g : Guest W) → g.slot ≡ none → AllRefused fuel es g
  empty-AllRefused fuel [] g n = tt
  empty-AllRefused fuel ((event, x, status) ∷ es) g n =
      let (e, w, r, apart) = refused fuel event x status g n in
      (e, w, r, apart, empty-AllRefused fuel es _ refl)

  -- An event of a stream or a future, which `callback` does not implement, loses the call: it is
  -- refused with `NotImplementedError` while the state of the call is out of the context slot, and
  -- whatever events follow, none of them is answered with a code.
  pub callback-AllRefused :
      (fuel event : ℕ) (x : Waitable) (status : ℕ) (es : List HostEvent) (g : Guest W)
      → event ≢ event_none
      → event ≢ event_subtask
      → (callback runtime fuel event x status g
          ≡ some (err not_implemented, record g { slot = none }))
        × AllRefused fuel ((event, x, status) ∷ es) g
  unfolding callback
  callback-AllRefused fuel event x status es g p q = (
    ground arith,
    (
      not_implemented,
      g.world,
      ground arith,
      λ z r. cc r,
      empty-AllRefused fuel es (record g { slot = none }) refl,
    ),
  )

  end_step-exception :
      (t : TaskId) (e : End) (a : Active W) {x : ExceptionId}
      → a.guest.exception ≡ some x
      → (end_step runtime t e a).guest.exception ≡ some (kept_by x e)
  unfolding end_step await_result
  end_step-exception t (suspends y) a f = f
  end_step-exception t parks a f = f
  end_step-exception t finishes a f = f
  end_step-exception t (fails e) a f = refl

  -- What is recorded once the first step of `t` has run, if `x` was before.
  abbrev pub recorded_by : ExceptionId → TaskId → Guest W → ExceptionId
  recorded_by x t g =
      if runtime.cancelled g.world t then x else kept_by x (runtime.resume g.world t).0.ended

  run_task-exception :
      (t : TaskId) (a : Active W) {x : ExceptionId}
      → a.guest.exception ≡ some x
      → (run_task runtime a t).guest.exception ≡ some (recorded_by x t a.guest)
  unfolding run_task
  run_task-exception t a f = elim (Bool-cases (runtime.cancelled a.guest.world t)) [
    | inl c ↦ rw c f
    | inr c ↦ rw c (end_step-exception t (runtime.resume a.guest.world t).0.ended _ f)
  ]

  -- `_poll` where the first round of the loop raises.
  poll-err :
      (fuel : ℕ) (s : FutureState) (g : Guest W) {e : SupportError} {b : Active W}
      → poll_round runtime tt (record { tasks = s; guest = g }) ≡ (err e, b)
      → poll runtime (suc fuel) s g ≡ some (err e, b.guest)
  unfolding poll loop_poll while
  poll-err fuel s g r = ground (arith, r)

  -- Each call of an export, which starts a task, runs the first step of its task and raises what
  -- is recorded then, and that stays recorded.
  abbrev pub AllFail : ℕ → ExceptionId → List TaskId → Guest W → Type 0
  AllFail fuel x [] g = Unit {0}
  AllFail fuel x (t ∷ ts) g =
      (h : Guest W) × (first_poll runtime fuel t g ≡ some (err (recorded (recorded_by x t g)), h))
      × (h.exception ≡ some (recorded_by x t g))
      × AllFail fuel (recorded_by x t g) ts h

  first_round :
      (t : TaskId) (g : Guest W) {x : ExceptionId}
      → g.exception ≡ some x
      → (b : Active W) × (poll_round runtime tt (record { tasks = first_state t; guest = g })
          ≡ (err (recorded (recorded_by x t g)), b))
        × (b.guest.exception ≡ some (recorded_by x t g))
  unfolding poll_round after_round
  first_round t g f =
      let start : Active W = record {
        tasks = record (first_state t) { handles = [] };
        guest = g;
      } in
      let e = run_task-exception t start f in (run_task runtime start t, rw e refl, e)

  -- `_Loop.poll` never clears the exception: once one is recorded, each of any later calls of an
  -- export runs the first step of its task and raises: the exception of that step, if it raises
  -- one, and else the one that was recorded before. What it raises stays recorded.
  pub first_poll-AllFail :
      (fuel : ℕ) (ts : List TaskId) (g : Guest W) {x : ExceptionId}
      → g.exception ≡ some x
      → AllFail (suc fuel) x ts g
  unfolding first_poll
  first_poll-AllFail fuel [] g e = tt
  first_poll-AllFail fuel (t ∷ ts) g e =
      let (b, r, kept) = first_round t g e in
      (b.guest, poll-err fuel (first_state t) g r, kept, first_poll-AllFail fuel ts b.guest kept)
