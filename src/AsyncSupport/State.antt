-- ===== src/AsyncSupport/State.antt =====
-- guest/componentize_py_async_support/__init__.py: the state of a call of an export, the host's
-- codes, and what the loop asks of the coroutines and of `componentize_py_runtime`.
use pycage.Prelude.{ℕ, Bool, Option, none, some, List, [], ◌∷◌, ◌==◌, if◌then◌else◌}

abbrev pub TaskId : Type 0
TaskId = ℕ

abbrev pub Waitable : Type 0
Waitable = ℕ

abbrev pub ExceptionId : Type 0
ExceptionId = ℕ

-- `_FutureState`. Each handle is a step of a task, and the future of a waitable wakes one task.
pub record FutureState : Type 0 where
  pub waitable_set : Option ℕ
  pub futures : List (Waitable × TaskId)
  pub handles : List TaskId
  pub pending_count : ℕ

-- `_CallbackCode`, `_Event` and `_Status`
abbrev pub callback_exit : ℕ
callback_exit = 0

abbrev pub callback_wait : ℕ
callback_wait = 2

abbrev pub event_none : ℕ
event_none = 0

abbrev pub event_subtask : ℕ
event_subtask = 1

abbrev pub status_starting : ℕ
status_starting = 0

abbrev pub status_started : ℕ
status_started = 1

abbrev pub status_returned : ℕ
status_returned = 2

-- Where a step of a task leaves it: at the `await` of a waitable's future, at the `await` of
-- another future, returned, or with an exception that its wrapper records.
pub data End : Type 0 where
  suspends : Waitable → End
  parks : End
  finishes : End
  fails : ExceptionId → End

-- One step of a task: the tasks that it hands to `spawn`, and how it ends.
pub record Step : Type 0 where
  pub spawned : List TaskId
  pub ended : End

pub record Runtime (W : Type 0) : Type 0 where
  pub cancelled : W → TaskId → Bool
  pub resume : W → TaskId → Step × W
  pub waitable_set_new : W → ℕ × W
  pub waitable_set_drop : W → ℕ → W
  pub waitable_join : W → Waitable → ℕ → W
  pub subtask_drop : W → Waitable → W

-- `_loop.exception`, the host's context slot, and the rest of the world.
pub record Guest (W : Type 0) : Type 0 where
  pub exception : Option ExceptionId
  pub slot : Option FutureState
  pub world : W

-- The guest while it works on the tasks of one call.
pub record Active (W : Type 0) : Type 0 where
  pub tasks : FutureState
  pub guest : Guest W

pub data SupportError : Type 0 where
  recorded : ExceptionId → SupportError
  assertion_error not_implemented key_error attribute_error : SupportError

-- A Python dict of futures: `futures[x] = f` and `futures.pop(x)`.
abbrev pub put : Waitable → TaskId → List (Waitable × TaskId) → List (Waitable × TaskId)
put x t [] = (x, t) ∷ []
put x t ((y, u) ∷ fs) = if x == y then (x, t) ∷ fs else (y, u) ∷ put x t fs

abbrev pub lookup : Waitable → List (Waitable × TaskId) → Option TaskId
lookup x [] = none
lookup x ((y, u) ∷ fs) = if x == y then some u else lookup x fs

abbrev pub remove : Waitable → List (Waitable × TaskId) → List (Waitable × TaskId)
remove x [] = []
remove x ((y, u) ∷ fs) = if x == y then fs else (y, u) ∷ remove x fs
