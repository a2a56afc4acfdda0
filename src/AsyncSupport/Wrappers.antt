-- ===== src/AsyncSupport/Wrappers.antt =====
-- guest/componentize_py_async_support/__init__.py, `_return_result` and `_wrap_spawned`: the
-- wrappers that a task runs, over the coroutine that it awaits. They make a `Runtime` for the
-- loop.
pub mod Count
pub mod Returns
pub mod Serving
pub mod Sequences
mod Samples
mod Examples
use pycage.Prelude.{ℕ, Bool, Option, none, some, List}
use pycage.Result.{Result, ok, err}
use pycage.AsyncSupport.{
  TaskId, Waitable, ExceptionId, End, suspends, parks, finishes, fails, Runtime,
}

-- Where the awaited coroutine comes back: at the `await` of a waitable's future or of another
-- future, with its value, with an `Err`, with another `Exception`, or with an exception that is
-- none, such as `CancelledError`.
pub data Progress (V E : Type 0) : Type 0 where
  waits : Waitable → Progress V E
  idles : Progress V E
  returns : V → Progress V E
  raises_err : E → Progress V E
  raises : ExceptionId → Progress V E
  breaks : Progress V E

-- The coroutines and the host. `export_index` is what `first_poll` was given, for a task that it
-- made, and `none` for a task that was spawned. `call_task_return` may raise.
pub record Coroutines (W V E : Type 0) : Type 0 where
  pub export_index : TaskId → Option ℕ
  pub cancelled : W → TaskId → Bool
  pub advance : W → TaskId → (List TaskId × Progress V E) × W
  pub exception_of : E → ExceptionId
  pub call_task_return : ℕ → Result V E → W → Option ExceptionId × W
  pub waitable_set_new : W → ℕ × W
  pub waitable_set_drop : W → ℕ → W
  pub waitable_join : W → Waitable → ℕ → W
  pub subtask_drop : W → Waitable → W

abbrev pub recorded_or_done : Option ExceptionId → End
recorded_or_done none = finishes
recorded_or_done (some e) = fails e

module _ {W V E : Type 0} (coroutines : Coroutines W V E) where
  abbrev pub task_return : ℕ → Result V E → W → End × W
  task_return index result w =
      let (raised, w) = coroutines.call_task_return index result w in (recorded_or_done raised, w)

  -- `_return_result`. An exception that is no `Exception` passes its `except`, and its last lines
  -- are not reached, as for a task that waits.
  unfoldable pub return_result : ℕ → Progress V E → W → End × W
  return_result index (waits x) w = (suspends x, w)
  return_result index idles w = (parks, w)
  return_result index (returns v) w = task_return index (ok v) w
  return_result index (raises_err e) w = task_return index (err e) w
  return_result index (raises e) w = (fails e, w)
  return_result index breaks w = (parks, w)

  -- `_wrap_spawned`
  unfoldable pub wrap_spawned : Progress V E → End
  wrap_spawned (waits x) = suspends x
  wrap_spawned idles = parks
  wrap_spawned (returns v) = finishes
  wrap_spawned (raises_err e) = fails (coroutines.exception_of e)
  wrap_spawned (raises e) = fails e
  wrap_spawned breaks = parks

  -- The wrapper of a task.
  unfoldable pub wrapped : Option ℕ → Progress V E → W → End × W
  unfolding return_result wrap_spawned
  wrapped none p w = (wrap_spawned p, w)
  wrapped (some index) p w = return_result index p w

  abbrev pub runtime_of : Runtime W
  runtime_of = record {
    cancelled = coroutines.cancelled;
    resume = λ w t.
        let ((spawned, progress), w) = coroutines.advance w t in
        let (ended, w) = wrapped (coroutines.export_index t) progress w in
        (record { spawned = spawned; ended = ended }, w);
    waitable_set_new = coroutines.waitable_set_new;
    waitable_set_drop = coroutines.waitable_set_drop;
    waitable_join = coroutines.waitable_join;
    subtask_drop = coroutines.subtask_drop;
  }
