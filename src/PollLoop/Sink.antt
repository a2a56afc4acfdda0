-- ===== src/PollLoop/Sink.antt =====
-- guest/poll_loop.py, `class Sink`: the writer over an outgoing body. The host's output stream is a
-- parameter; `wait` is `await register(loop, stream.subscribe())`.
pub mod Delivery
pub mod Handles
mod Examples
use pycage.Prelude.{
  ℕ, zero, ◌+◌, ◌-◌, Bool, true, false, Option, none, some, List, ◌==◌, if◌then◌else◌, min, length,
  slice,
}
use pycage.Result.{Result, ok, err}
use pycage.Exec.{Exec, pure, raise, ◌>>=◌, ◌>>◌}
use pycage.Loop.{Next, again, return, while}
use pycage.Wasi.Io.{StreamError}

-- The operations of the host's output stream and of the event loop that `Sink` calls, over the
-- host's state.
pub record OutputStream (H Byte : Type 0) : Type 0 where
  pub check_write : Exec H StreamError ℕ
  pub write : List Byte → Exec H StreamError (Unit {0})
  pub flush : Exec H StreamError (Unit {0})
  pub wait : Exec H StreamError (Unit {0})

-- The locals of `send` that change from round to round.
pub record Progress : Type 0 where
  pub offset : ℕ
  pub flushing : Bool

module _ {H Byte : Type 0} (stream : OutputStream H Byte) (chunk : List Byte) where
  -- The branches of a round of `send`, given what `check_write` returned.
  send_branch : Progress → ℕ → Exec H StreamError (Next Progress (Unit {0}))
  send_branch p count =
      if count == 0
      then (stream.wait >> pure (again p))
      else if p.offset == length chunk
      then (if p.flushing
          then pure (return tt)
          else (stream.flush >> pure (again (record p { flushing = true }))))
      else (let n = min count (length chunk - p.offset) in
          stream.write (slice chunk p.offset n)
          >> pure (again (record p { offset = p.offset + n })))

  unfoldable pub send_round : Progress → Exec H StreamError (Next Progress (Unit {0}))
  unfolding send_branch
  send_round p = stream.check_write >>= send_branch p

  -- `send`, with fuel for its `while True`.
  unfoldable pub send : ℕ → H → Option (Result (Unit {0}) StreamError × H)
  send fuel = while fuel send_round (record { offset = 0; flushing = false })
