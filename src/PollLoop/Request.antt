-- ===== src/PollLoop/Request.antt =====
-- guest/poll_loop.py, the function `send`: a request goes out, and its response is waited for. The
-- host's handler and its futures are parameters; `wait` is `await register(loop,
-- future.subscribe())`.
pub mod Answers
mod Examples
use pycage.Prelude.{ℕ, Option, none, some}
use pycage.Result.{Result, ok, err}
use pycage.Loop.{Next, again, return, while}
use pycage.Wasi.Http.{ErrorCode}

-- What `send` raises: the code of the host, or `Err(None)` where the response was taken before.
pub data SendError : Type 0 where
  code_error : ErrorCode → SendError
  unit_error : SendError

-- What `future.get()` finds in a future that is ready.
abbrev pub Taken : Type 0
Taken = Result (Result ℕ ErrorCode) (Unit {0})

pub record Outgoing (H : Type 0) : Type 0 where
  pub handle : ℕ → H → Result ℕ ErrorCode × H
  pub get : ℕ → H → Option Taken × H
  pub wait : ℕ → H → H

-- `return response.value.value`, `raise response.value` or `raise response`
abbrev pub answer : Taken → Result ℕ SendError
answer (ok (ok response)) = ok response
answer (ok (err code)) = err (code_error code)
answer (err e) = err unit_error

abbrev pub ended : Result ℕ SendError → Result (Next (Unit {0}) ℕ) SendError
ended (ok response) = ok (return response)
ended (err e) = err e

module _ {H : Type 0} (host : Outgoing H) where
  -- The rest of a round, given what `future.get()` returned.
  after_get : ℕ → Option Taken → H → Result (Next (Unit {0}) ℕ) SendError × H
  after_get future none h = (ok (again tt), host.wait future h)
  after_get future (some r) h = (ended (answer r), h)

  send_once : ℕ → Unit {0} → H → Result (Next (Unit {0}) ℕ) SendError × H
  unfolding after_get
  send_once future _ h = after_get future (host.get future h).0 (host.get future h).1

  wait_response : ℕ → Result ℕ ErrorCode → H → Option (Result ℕ SendError × H)
  unfolding send_once
  wait_response fuel (err code) h = some (err (code_error code), h)
  wait_response fuel (ok future) h = while fuel (send_once future) tt h

  -- `send`, with fuel for its `while True`
  unfoldable pub send_request : ℕ → ℕ → H → Option (Result ℕ SendError × H)
  unfolding wait_response
  send_request fuel request h =
      wait_response fuel (host.handle request h).0 (host.handle request h).1
