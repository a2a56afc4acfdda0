-- ===== src/AsyncSupport.antt =====
-- guest/componentize_py_async_support/__init__.py: the tasks of one call of an export,
-- `_Loop.poll`, and the callback that the host drives them by. Tasks, waitables and exceptions are
-- named by numbers. What a coroutine does between two of its suspensions, and the host's runtime,
-- are parameters.
mod State
mod Dict
pub mod Tasks
pub mod Load
pub mod Polling
pub mod Delivery
pub mod Callback
pub mod Failure
pub mod Wrappers
pub mod Budget
pub mod Code
pub mod Methods
pub mod Leaving
pub mod Foreign
pub mod Joining
pub mod Calls
mod Samples
mod Examples
pub use State.*
use Prim.Native.Nat.{◌^◌, bit_or}
use mathlib.Core.List.{foldl}
use pycage.Prelude.{
  ℕ, ◌+◌, ◌-◌, ◌*◌, Bool, true, false, Option, none, some, List, [], ◌∷◌, ◌++◌, ◌==◌, if◌then◌else◌,
  length, ◌&&◌,
}
use pycage.Result.{Result, ok, err}
use pycage.Exec.{Exec, pure, raise, ◌>>=◌, ◌>>◌}
use pycage.Loop.{Next, again, return, while}

-- `call_soon`, in the context of the call.
unfoldable pub call_soon : TaskId → FutureState → FutureState
call_soon t s = record s { handles = s.handles ++ t ∷ [] }

-- `spawn`
unfoldable pub spawn : FutureState → TaskId → FutureState
unfolding call_soon
spawn s t = call_soon t (record s { pending_count = s.pending_count + 1 })

-- The last lines of `_return_result` and of `_wrap_spawned`. Where the assertion fails, the
-- exception stays with the task, which nobody awaits.
unfoldable pub finish : FutureState → FutureState
finish s = if s.pending_count == 0 then s else record s { pending_count = s.pending_count - 1 }

-- The state of a call of an export, with the one task that `create_task` makes.
abbrev pub first_state : TaskId → FutureState
first_state t = record { waitable_set = none; futures = []; handles = t ∷ []; pending_count = 1 }

-- `future_state.futures.pop(x).set_result(…)`: the task of the future is queued. The cancellation of
-- a task while it is suspended, which cancels its future too, so that `set_result` raises, is not
-- modelled; a handle that is cancelled is.
wake : Waitable → FutureState → Result FutureState SupportError
unfolding call_soon
wake x s = elim (lookup x s.futures) [
  | none ↦ err key_error
  | some t ↦ ok (call_soon t (record s { futures = remove x s.futures }))
]

wake_held : Waitable → Option FutureState → Result (Option FutureState) SupportError
unfolding wake
wake_held x none = err attribute_error
wake_held x (some s) = elim (wake x s) [ err e ↦ err e | ok s' ↦ ok (some s') ]

module _ {W : Type 0} (runtime : Runtime W) where
  -- `await_result` of a result that is not `Ok`, up to its `await future`: the set that the
  -- waitable joins, made where there is none.
  pub join_set : Option ℕ → Waitable → W → ℕ × W
  join_set (some set) x w = (set, runtime.waitable_join w x set)
  join_set none x w =
      let (set, w') = runtime.waitable_set_new w in (set, runtime.waitable_join w' x set)

  unfoldable pub await_result : TaskId → Waitable → Active W → Active W
  unfolding join_set
  await_result t x a =
      let (set, w) = join_set a.tasks.waitable_set x a.guest.world in
      record {
        tasks = record a.tasks { futures = put x t a.tasks.futures; waitable_set = some set };
        guest = record a.guest { world = w };
      }

  -- How a step of the task `t` ends.
  pub end_step : TaskId → End → Active W → Active W
  unfolding await_result finish
  end_step t (suspends x) a = await_result t x a
  end_step t parks a = a
  end_step t finishes a = record a { tasks = finish a.tasks }
  end_step t (fails e) a = record a {
    tasks = finish a.tasks;
    guest = record a.guest { exception = some e };
  }

  -- `handle._run()` for a handle that is not cancelled.
  unfoldable pub run_task : Active W → TaskId → Active W
  unfolding end_step spawn
  run_task a t =
      if runtime.cancelled a.guest.world t
      then a
      else (let (step, w) = runtime.resume a.guest.world t in
          end_step t step.ended (record {
            tasks = foldl spawn a.tasks step.spawned;
            guest = record a.guest { world = w };
          }))

  -- A round of `_Loop.poll`.
  after_round :
      List TaskId → Option ExceptionId → Exec (Active W) SupportError (Next (Unit {0}) (Unit {0}))
  after_round handles (some e) a = (err (recorded e), a)
  after_round handles none a =
      if length handles == 0 && length a.tasks.handles == 0
      then (ok (return tt), a)
      else (ok (again tt), a)

  unfoldable pub poll_round : Unit {0} → Exec (Active W) SupportError (Next (Unit {0}) (Unit {0}))
  unfolding after_round
  poll_round _ a =
      let handles = a.tasks.handles in
      let ran = foldl run_task (record a { tasks = record a.tasks { handles = [] } }) handles in
      after_round handles ran.guest.exception ran

  -- `_Loop.poll`, with fuel for its `while True`.
  unfoldable pub loop_poll : ℕ → Active W → Option (Result (Unit {0}) SupportError × Active W)
  loop_poll fuel = while fuel poll_round tt

  -- The branches of `_poll` behind `_loop.poll`.
  drop_set : Option ℕ → Guest W → Guest W
  drop_set none g = g
  drop_set (some set) g = record g { world = runtime.waitable_set_drop g.world set }

  wait_on : Option ℕ → Active W → Result ℕ SupportError × Guest W
  wait_on none a = (err assertion_error, a.guest)
  wait_on (some set) a =
      (ok (bit_or callback_wait (set * 2 ^ 4)), record a.guest { slot = some a.tasks })

  unfoldable pub reply : Active W → Result ℕ SupportError × Guest W
  unfolding drop_set wait_on
  reply a =
      if a.tasks.pending_count == 0
      then (ok callback_exit, drop_set a.tasks.waitable_set a.guest)
      else wait_on a.tasks.waitable_set a

  -- `_poll`
  unfoldable pub poll : ℕ → FutureState → Guest W → Option (Result ℕ SupportError × Guest W)
  poll fuel s g = elim (loop_poll fuel (record { tasks = s; guest = g })) [
    | none ↦ none
    | some (ok _, a) ↦ some (reply a)
    | some (err e, a) ↦ some (err e, a.guest)
  ]

  unfoldable pub first_poll : ℕ → TaskId → Guest W → Option (Result ℕ SupportError × Guest W)
  first_poll fuel t = poll fuel (first_state t)

  -- The `match` of `callback`, with what `context_get` returned.
  deliver : ℕ → Waitable → ℕ → Option FutureState → Exec (Guest W) SupportError (Option FutureState)
  unfolding wake_held
  deliver event x status held g =
      if event == event_none
      then (ok held, g)
      else if event == event_subtask
      then (if status == status_starting
          then (err assertion_error, g)
          else if status == status_started
          then (ok held, g)
          else if status == status_returned
          then (
            wake_held x held,
            record g { world = runtime.subtask_drop (runtime.waitable_join g.world x 0) x },
          )
          else (err not_implemented, g))
      else (err not_implemented, g)

  -- `_poll(future_state)` at the end of `callback`; on `None` the loop has no attribute to read.
  poll_held :
      ℕ
      → Result (Option FutureState) SupportError
      → Guest W
      → Option (Result ℕ SupportError × Guest W)
  poll_held fuel (err e) g = some (err e, g)
  poll_held fuel (ok none) g = some (err attribute_error, g)
  poll_held fuel (ok (some s)) g = poll fuel s g

  unfoldable pub callback :
      ℕ → ℕ → Waitable → ℕ → Guest W → Option (Result ℕ SupportError × Guest W)
  unfolding deliver poll_held
  callback fuel event x status g =
      let (r, g') = deliver event x status g.slot (record g { slot = none }) in poll_held fuel r g'
