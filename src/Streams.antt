-- ===== src/Streams.antt =====
-- guest/componentize_py_async_support/streams.py: the two ends of a stream. The runtime's
-- functions are parameters over the host's state. A call of one of them behind `await_result` is
-- answered at once, or blocks: the coroutine is suspended then and runs no further, since `callback`
-- does not take the event that its waitable has, and what has been done up to the `await` is what
-- the model has as the state. An error that is raised at the `await` leaves the same state. A finalizer that has not been detached drops the handle that it was given when
-- the object is collected.
pub mod Reader
pub mod Writer
pub mod WriteAll
mod Examples
use pycage.Prelude.{
  ℕ, zero, suc, ◌+◌, Bool, true, false, Option, none, some, List, [], ◌∷◌, ◌==◌, if◌then◌else◌,
  length, drop, not, ◌&&◌, ltb,
}
use pycage.Result.{Result, ok, err}
use pycage.Exec.{Exec, pure, raise, ◌>>=◌, ◌>>◌}
use pycage.Loop.{Next, again, return, while}

-- `_ReturnCode`
abbrev pub completed : ℕ
completed = 0

abbrev pub dropped : ℕ
dropped = 1

abbrev pub cancelled : ℕ
cancelled = 2

pub data StreamFault : Type 0 where
  assertion_error : StreamFault
  suspended : StreamFault

-- `componentize_py_runtime`, for streams: each takes the type and the handle of the stream. A read
-- or a write that blocks has no answer.
pub record StreamRuntime (H A : Type 0) : Type 0 where
  pub stream_read : ℕ → ℕ → ℕ → H → Option (ℕ × List A) × H
  pub stream_write : ℕ → ℕ → List A → H → Option (ℕ × ℕ) × H
  pub stream_drop_readable : ℕ → ℕ → H → H
  pub stream_drop_writable : ℕ → ℕ → H → H

-- `await await_result(…)`
abbrev pub answered : {A : Type 0} → Option A → Result A StreamFault
answered none = err suspended
answered (some a) = ok a

-- `StreamReader`, beside the host. `finalizer` is the handle that an attached finalizer drops.
pub record StreamReader (H : Type 0) : Type 0 where
  pub writer_dropped : Bool
  pub type_ : ℕ
  pub handle : Option ℕ
  pub finalizer : Option ℕ
  pub host : H

-- `StreamWriter`
pub record StreamWriter (H : Type 0) : Type 0 where
  pub reader_dropped : Bool
  pub type_ : ℕ
  pub handle : Option ℕ
  pub finalizer : Option ℕ
  pub host : H

-- `__init__`
abbrev pub new_reader : {H : Type 0} → ℕ → ℕ → H → StreamReader H
new_reader type_ handle h = record {
  writer_dropped = false;
  type_ = type_;
  handle = some handle;
  finalizer = some handle;
  host = h;
}

abbrev pub new_writer : {H : Type 0} → ℕ → ℕ → H → StreamWriter H
new_writer type_ handle h = record {
  reader_dropped = false;
  type_ = type_;
  handle = some handle;
  finalizer = some handle;
  host = h;
}

module _ {H A : Type 0} (runtime : StreamRuntime H A) where
  -- `StreamReader._read`
  read_handle : Option ℕ → ℕ → Exec (StreamReader H) StreamFault (ℕ × List A)
  read_handle none n r = (err assertion_error, r)
  read_handle (some handle) n r =
      let (answer, h) = runtime.stream_read r.type_ handle n r.host in
      (answered answer, record r { host = h })

  note_writer : ℕ × List A → Exec (StreamReader H) StreamFault (List A)
  note_writer (code, values) r =
      (ok values, if code == dropped then record r { writer_dropped = true } else r)

  -- `StreamReader.read`
  unfoldable pub read : ℕ → Exec (StreamReader H) StreamFault (List A)
  unfolding read_handle note_writer
  read n r = if r.writer_dropped then (ok [], r) else (read_handle r.handle n >>= note_writer) r

  drop_readable : Option ℕ → StreamReader H → StreamReader H
  drop_readable none r = r
  drop_readable (some handle) r = record r {
    host = runtime.stream_drop_readable r.type_ handle r.host;
  }

  -- `StreamReader.__exit__`
  unfoldable pub exit_reader : StreamReader H → StreamReader H
  unfolding drop_readable
  exit_reader r = drop_readable r.handle (record r { finalizer = none; handle = none })

  -- The object is collected.
  unfoldable pub collect_reader : StreamReader H → StreamReader H
  unfolding drop_readable
  collect_reader r = drop_readable r.finalizer (record r { finalizer = none })

  -- `StreamWriter._write`
  write_handle : Option ℕ → List A → Exec (StreamWriter H) StreamFault (ℕ × ℕ)
  write_handle none source w = (err assertion_error, w)
  write_handle (some handle) source w =
      let (answer, h) = runtime.stream_write w.type_ handle source w.host in
      (answered answer, record w { host = h })

  note_reader : ℕ × ℕ → Exec (StreamWriter H) StreamFault ℕ
  note_reader (code, count) w =
      (ok count, if code == dropped then record w { reader_dropped = true } else w)

  -- `StreamWriter.write`
  unfoldable pub write : List A → Exec (StreamWriter H) StreamFault ℕ
  unfolding write_handle note_reader
  write source w =
      if w.reader_dropped then (ok 0, w) else (write_handle w.handle source >>= note_reader) w

  -- A round of `write_all`, over what is left of the source and the total so far.
  unfoldable pub write_all_round :
      List A × ℕ → Exec (StreamWriter H) StreamFault (Next (List A × ℕ) ℕ)
  write_all_round (source, total) w =
      if ltb 0 (length source) && not w.reader_dropped
      then (write source >>= λ count. pure (again (drop count source, total + count))) w
      else (ok (return total), w)

  -- `StreamWriter.write_all`, with fuel for its `while`.
  unfoldable pub write_all :
      ℕ → List A → StreamWriter H → Option (Result ℕ StreamFault × StreamWriter H)
  write_all fuel source = while fuel write_all_round (source, 0)

  drop_writable : Option ℕ → StreamWriter H → StreamWriter H
  drop_writable none w = w
  drop_writable (some handle) w = record w {
    host = runtime.stream_drop_writable w.type_ handle w.host;
  }

  -- `StreamWriter.__exit__`
  unfoldable pub exit_writer : StreamWriter H → StreamWriter H
  unfolding drop_writable
  exit_writer w = drop_writable w.handle (record w { finalizer = none; handle = none })

  unfoldable pub collect_writer : StreamWriter H → StreamWriter H
  unfolding drop_writable
  collect_writer w = drop_writable w.finalizer (record w { finalizer = none })

-- `ByteStreamReader` and `ByteStreamWriter` have the same methods, for bytes.
abbrev pub Byte : Type 0
Byte = ℕ

module _ {H : Type 0} (runtime : StreamRuntime H Byte) where
  unfoldable pub read_bytes : ℕ → Exec (StreamReader H) StreamFault (List Byte)
  unfolding read
  read_bytes = read runtime

  unfoldable pub write_bytes : List Byte → Exec (StreamWriter H) StreamFault ℕ
  unfolding write
  write_bytes = write runtime

  unfoldable pub write_all_bytes :
      ℕ → List Byte → StreamWriter H → Option (Result ℕ StreamFault × StreamWriter H)
  unfolding write_all
  write_all_bytes = write_all runtime
