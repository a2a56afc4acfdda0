-- ===== src/PollLoop/Request/Examples.antt =====
-- A host whose futures are ready after one wait.
use pycage.Prelude.{◌≡◌, ◌≢◌, refl, Bool, true, false, none, some, arith, if◌then◌else◌}
use pycage.Result.{ok, err}
use pycage.Loop.{Returns, while}
use pycage.Wasi.Http.{connection_refused}
use pycage.PollLoop.Request.{Outgoing, send_once, wait_response, send_request, code_error}
use pycage.PollLoop.Request.Answers.{FutureLaws, Answers, send_request-Answers}

abbrev host : Outgoing Bool
host = record {
  handle = λ r h. (ok 3, h);
  get = λ f h. (if h then some (ok (ok 9)) else none, h);
  wait = λ f h. true;
}

abbrev refusing : Outgoing Bool
refusing = record host { handle = λ r h. (err connection_refused, h) }

get_true : (h : Bool) → h ≡ true → (host.get 3 h).0 ≢ none
get_true true e = λ q. cc
get_true false e = cc

abbrev laws : FutureLaws host
laws = record { ready = λ f h. h; wait-ready = λ f h. refl; get-ready = λ f h e. get_true h e }

waits_once : send_request host 2 1 false ≡ some (ok 9, true)
unfolding send_request wait_response send_once while
waits_once = refl

raises_refusal : send_request refusing 2 1 false ≡ some (err (code_error connection_refused), false)
unfolding send_request wait_response
raises_refusal = refl

send_request-Answers_example : Returns (Answers host laws 1 false) (send_request host 2 1 false)
send_request-Answers_example = send_request-Answers host laws 2 1 false (omega arith)
