-- ===== src/PollLoop/Source.antt =====
-- guest/poll_loop.py, `class Stream`: the reader over an incoming body. The host's input stream is
-- a parameter; `wait` is `await register(loop, self.stream.subscribe())`, `exit` is the stream's
-- `__exit__(None, None, None)` and `finish` is `IncomingBody.finish(self.body)`.
pub mod Reading
mod Examples
use pycage.Prelude.{
  ℕ, zero, ◌*◌, Bool, true, false, Option, none, some, List, ◌==◌, if◌then◌else◌, length,
}
use pycage.Result.{Result, ok, err}
use pycage.Exec.{Exec, pure, raise, ◌>>=◌, ◌>>◌, catch, modify}
use pycage.Loop.{Next, again, return, while}
use pycage.Wasi.Io.{StreamError, last_operation_failed, closed}

pub record InputStream (H Byte : Type 0) : Type 0 where
  pub read : ℕ → Exec H StreamError (List Byte)
  pub wait : Exec H StreamError (Unit {0})
  pub exit : H → H
  pub finish : H → H

-- Maximum number of bytes to read at a time.
abbrev pub read_size : ℕ
read_size = 16 * 1024

-- The object beside the host: the fields say whether `self.body` and `self.stream` are not `None`.
pub record Stream (H : Type 0) : Type 0 where
  pub body : Bool
  pub stream : Bool
  pub host : H

-- `Stream(body)`: both handles are held.
abbrev pub init : {H : Type 0} → H → Stream H
init h = record { body = true; stream = true; host = h }

module _ {H Byte : Type 0} (input : InputStream H Byte) where
  -- An operation of the host, called by a method of the object.
  abbrev on_host : {A : Type 0} → Exec H StreamError A → Exec (Stream H) StreamError A
  on_host m s = ((m s.host).0, record s { host = (m s.host).1 })

  close_stream : Stream H → Stream H
  close_stream s = if s.stream then record s { stream = false; host = input.exit s.host } else s

  close_body : Stream H → Stream H
  close_body s = if s.body then record s { body = false; host = input.finish s.host } else s

  -- `except Err as e`
  on_error : StreamError → Exec (Stream H) StreamError (Next (Unit {0}) (Option (List Byte)))
  unfolding close_stream close_body
  on_error closed s = (ok (again tt), close_body (close_stream s))
  on_error (last_operation_failed e) s = (err (last_operation_failed e), s)

  -- The `else` branch of `try`.
  read_chunk : Exec (Stream H) StreamError (Next (Unit {0}) (Option (List Byte)))
  read_chunk = do
    buffer ← on_host (input.read read_size)
    if length buffer == 0
        then (on_host input.wait >> pure (again tt))
        else pure (return (some buffer))

  unfoldable pub next_round :
      Unit {0} → Exec (Stream H) StreamError (Next (Unit {0}) (Option (List Byte)))
  unfolding read_chunk on_error
  next_round _ s = if s.stream then catch read_chunk on_error s else (ok (return none), s)

  -- `next`, with fuel for its `while True`.
  unfoldable pub next : ℕ → Stream H → Option (Result (Option (List Byte)) StreamError × Stream H)
  next fuel = while fuel next_round tt
