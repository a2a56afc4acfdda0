-- ===== src/AsyncSupport/Calls/Examples.antt =====
-- Two calls that wait at the same time; the second returns first.
use pycage.Prelude.{ℕ, Option, ◌≡◌, refl, none, some, List, [], ◌∷◌, arith, inl, inr}
use pycage.Result.{Result, ok}
use pycage.Loop.{while}
use pycage.AsyncSupport.{
  FutureState, TaskId, Waitable, event_none, event_subtask, status_returned, first_poll, callback,
  poll, loop_poll, poll_round, run_task, reply, spawn,
}
use pycage.AsyncSupport.Wrappers.{wrapped, return_result, runtime_of}
use pycage.AsyncSupport.Wrappers.Sequences.{Event}
use pycage.AsyncSupport.Calls.{Calls, Action, begins, sends, none_yet, act, act_all, settle, update}
use pycage.AsyncSupport.Calls.Samples.{TwoWorld, coroutines, laws, counts, sets, tasks}
use pycage.AsyncSupport.Calls.Serving.{IsServing}
use pycage.AsyncSupport.Calls.Orders.{Yields, Fits, act_all-IsServing}

abbrev at_rest : TwoWorld
at_rest = record { open_waitables = []; waited = []; results = [] }

abbrev nothing : Event
nothing = record { event = event_none; waitable = 0; status = 0 }

abbrev return_of_two : Event
return_of_two = record { event = event_subtask; waitable = 2; status = status_returned }

abbrev return_of_one : Event
return_of_one = record { event = event_subtask; waitable = 1; status = status_returned }

abbrev actions : List Action
actions = begins 1 ∷ begins 2 ∷ sends 0 nothing ∷ sends 1 return_of_two ∷ sends 0 return_of_one ∷ []

-- The state of a call whose task `t` waits for the subtask `x`.
abbrev waiting_for : Waitable → TaskId → FutureState
waiting_for x t = record {
  waitable_set = some 7;
  futures = (x, t) ∷ [];
  handles = [];
  pending_count = 1;
}

abbrev results_of : Option (Calls TwoWorld) → Option (List (Result ℕ ℕ))
results_of none = none
results_of (some c) = some c.world.results

second_first :
    results_of (act_all (runtime_of coroutines) 5 actions (none_yet at_rest))
    ≡ some (ok 41 ∷ ok 42 ∷ [])
unfolding act act_all settle update first_poll callback poll loop_poll while poll_round run_task
    spawn reply wrapped return_result
second_first = refl

actions-Fits : Fits counts laws sets tasks 5 actions (none_yet at_rest)
unfolding act settle update first_poll callback poll loop_poll while poll_round run_task spawn reply
    wrapped return_result
actions-Fits = (
  refl,
  (
    refl,
    (
      (waiting_for 1 1, refl, inl refl),
      (
        (waiting_for 2 2, refl, inr (inr (refl, refl, λ l. cc l))),
        ((waiting_for 1 1, refl, inr (inr (refl, refl, λ l. cc l))), tt),
      ),
    ),
  ),
)

act_all-IsServing_example :
    Yields
      (IsServing counts laws sets tasks at_rest)
      (act_all (runtime_of coroutines) 5 actions (none_yet at_rest))
act_all-IsServing_example =
    act_all-IsServing counts laws sets tasks 5 actions at_rest (omega arith) actions-Fits
