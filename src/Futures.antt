-- ===== src/Futures.antt =====
-- guest/componentize_py_async_support/futures.py: the two ends of a future. The runtime's
-- functions are parameters over the host's state. A call behind `await_result` is answered at once,
-- or blocks: the coroutine is suspended then and runs no further, since `callback` does not take the
-- event that its waitable has. An error that is raised at the `await` leaves the same state.
-- What is handed to `spawn` waits in a queue, and is run to its end by `run_spawned`.
pub mod Reader
pub mod Writer
mod Examples
use pycage.Prelude.{
  ℕ, Bool, true, false, Option, none, some, List, [], ◌∷◌, ◌++◌, ◌==◌, if◌then◌else◌,
}
use pycage.Result.{Result, ok, err}
use pycage.Exec.{Exec, pure, raise, ◌>>=◌, ◌>>◌}

-- `_ReturnCode`
abbrev pub completed : ℕ
completed = 0

abbrev pub dropped : ℕ
dropped = 1

abbrev pub cancelled : ℕ
cancelled = 2

pub data FutureFault : Type 0 where
  assertion_error not_implemented suspended : FutureFault

-- `componentize_py_runtime`, for futures: each takes the type and the handle of the future. A
-- read or a write that blocks has no answer.
pub record FutureRuntime (H A : Type 0) : Type 0 where
  pub future_read : ℕ → ℕ → H → Option A × H
  pub future_write : ℕ → ℕ → A → H → Option ℕ × H
  pub future_drop_readable : ℕ → ℕ → H → H
  pub future_drop_writable : ℕ → ℕ → H → H

-- `FutureReader`, beside the host. `finalizer` is the handle that an attached finalizer drops.
pub record FutureReader (H : Type 0) : Type 0 where
  pub type_ : ℕ
  pub handle : Option ℕ
  pub finalizer : Option ℕ
  pub host : H

-- A coroutine that was handed to `spawn`: the method `write` of the object with a value, or the
-- function `write` of the module with a handle and a value.
pub data Spawned (A : Type 0) : Type 0 where
  method : A → Spawned A
  function : ℕ → A → Spawned A

-- `FutureWriter`, beside the host and the queue of what was spawned. `default` is what the
-- callable of that name returns.
pub record FutureWriter (H A : Type 0) : Type 0 where
  pub type_ : ℕ
  pub handle : Option ℕ
  pub default : A
  pub finalizer : Option ℕ
  pub host : H
  pub spawned : List (Spawned A)

abbrev pub new_reader : {H : Type 0} → ℕ → ℕ → H → FutureReader H
new_reader type_ handle h = record {
  type_ = type_;
  handle = some handle;
  finalizer = some handle;
  host = h;
}

abbrev pub new_writer : {H A : Type 0} → ℕ → ℕ → A → H → FutureWriter H A
new_writer type_ handle default h = record {
  type_ = type_;
  handle = some handle;
  default = default;
  finalizer = some handle;
  host = h;
  spawned = [];
}

module _ {H A : Type 0} (runtime : FutureRuntime H A) where
  read_handle : Option ℕ → Exec (FutureReader H) FutureFault A
  read_handle none r = (err assertion_error, r)
  read_handle (some handle) r =
      let (answer, h) = runtime.future_read r.type_ handle r.host in
      elim answer [
        | none ↦ (err suspended, record r { host = h })
        | some value ↦ (ok value, record r { host = runtime.future_drop_readable r.type_ handle h })
      ]

  -- `FutureReader.read`
  unfoldable pub read : Exec (FutureReader H) FutureFault A
  unfolding read_handle
  read r = read_handle r.handle (record r { finalizer = none; handle = none })

  drop_readable : Option ℕ → FutureReader H → FutureReader H
  drop_readable none r = r
  drop_readable (some handle) r = record r {
    host = runtime.future_drop_readable r.type_ handle r.host;
  }

  -- `FutureReader.__exit__`
  exit_handle : Option ℕ → FutureReader H → FutureReader H
  unfolding drop_readable
  exit_handle none r = r
  exit_handle (some handle) r =
      drop_readable (some handle) (record r { finalizer = none; handle = none })

  unfoldable pub exit_reader : FutureReader H → FutureReader H
  unfolding exit_handle
  exit_reader r = exit_handle r.handle r

  -- The object is collected: an attached finalizer drops its handle.
  unfoldable pub collect_reader : FutureReader H → FutureReader H
  unfolding drop_readable
  collect_reader r = drop_readable r.finalizer (record r { finalizer = none })

  -- The `match` on the code of a write.
  abbrev pub outcome : ℕ → Result Bool FutureFault
  outcome code =
      if code == completed
      then ok true
      else if code == dropped
      then ok false
      else if code == cancelled
      then err not_implemented
      else err assertion_error

  write_handle : Option ℕ → A → Exec (FutureWriter H A) FutureFault Bool
  write_handle none value w = (err assertion_error, w)
  write_handle (some handle) value w =
      let (answer, h) = runtime.future_write w.type_ handle value w.host in
      elim answer [
        | none ↦ (err suspended, record w { host = h })
        | some code ↦
            (outcome code, record w { host = runtime.future_drop_writable w.type_ handle h })
      ]

  -- `FutureWriter.write`
  unfoldable pub write : A → Exec (FutureWriter H A) FutureFault Bool
  unfolding write_handle
  write value w = write_handle w.handle value (record w { finalizer = none; handle = none })

  -- The function `write` of the module.
  write_free : ℕ → A → FutureWriter H A → FutureWriter H A
  write_free handle value w =
      let (answer, h) = runtime.future_write w.type_ handle value w.host in
      elim answer [
        | none ↦ record w { host = h }
        | some code ↦ record w { host = runtime.future_drop_writable w.type_ handle h }
      ]

  -- `FutureWriter.__exit__`
  exit_writing : Option ℕ → FutureWriter H A → FutureWriter H A
  exit_writing none w = w
  exit_writing (some handle) w = record w { spawned = w.spawned ++ method w.default ∷ [] }

  unfoldable pub exit_writer : FutureWriter H A → FutureWriter H A
  unfolding exit_writing
  exit_writer w = exit_writing w.handle w

  -- `write_default`, the finalizer of a writer that is collected.
  write_default : Option ℕ → FutureWriter H A → FutureWriter H A
  write_default none w = w
  write_default (some handle) w = record w {
    finalizer = none;
    spawned = w.spawned ++ function handle w.default ∷ [];
  }

  unfoldable pub collect_writer : FutureWriter H A → FutureWriter H A
  unfolding write_default
  collect_writer w = write_default w.finalizer w

  -- One spawned coroutine runs to its end; an exception of it is recorded by its wrapper.
  run_one : FutureWriter H A → Spawned A → FutureWriter H A
  unfolding write write_free
  run_one w (method value) = (write value w).1
  run_one w (function handle value) = write_free handle value w

  run_list : List (Spawned A) → FutureWriter H A → FutureWriter H A
  unfolding run_one
  run_list [] w = w
  run_list (c ∷ cs) w = run_list cs (run_one w c)

  unfoldable pub run_spawned : FutureWriter H A → FutureWriter H A
  unfolding run_list
  run_spawned w = run_list w.spawned (record w { spawned = [] })
