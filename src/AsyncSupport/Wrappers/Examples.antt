-- ===== src/AsyncSupport/Wrappers/Examples.antt =====
-- A call whose coroutine spawns a task, waits for a waitable and returns, up to its exit.
use pycage.Prelude.{
  ◌+◌, ◌*◌, ◌≡◌, ◌≢◌, refl, List, subst, inl, true, none, some, [], ◌∷◌, arith, inr,
}
use pycage.Result.{ok}
use pycage.Loop.{Returns, while}
use pycage.AsyncSupport.{
  FutureState, lookup, event_none, event_subtask, status_started, status_returned, first_poll,
  callback, poll, loop_poll, poll_round, run_task, spawn, reply,
}
use pycage.AsyncSupport.Wrappers.Samples.{
  coroutines, laws, counts, bounds, fresh, waiting_state, waiting, next, next-Reports,
}
use pycage.AsyncSupport.Delivery.{Expected}
use pycage.AsyncSupport.Wrappers.Sequences.{Event, deliver_next, drive, Fits, Driven, drive-Driven}
use pycage.AsyncSupport.Wrappers.Serving.{serve, Served, serve-Served}
use pycage.AsyncSupport.Wrappers.{wrapped, return_result, wrap_spawned, runtime_of}

first_waits : first_poll (runtime_of coroutines) 5 1 fresh ≡ some (ok (2 + 7 * 16), waiting)
unfolding first_poll poll loop_poll while poll_round run_task spawn reply wrapped return_result
    wrap_spawned
first_waits = refl

then_returns :
    callback (runtime_of coroutines) 5 event_subtask 1 status_returned waiting
    ≡ some (
      ok 0,
      record {
        exception = none;
        slot = none;
        world = record {
          base = record { open_waitables = []; has_waited = true; spawns_left = 0 };
          results = ok 42 ∷ [];
        };
      },
    )
unfolding callback poll loop_poll while poll_round run_task spawn reply wrapped return_result
then_returns = refl

serve-Served_example :
    Returns
      (Served counts laws bounds 1)
      (serve (runtime_of coroutines) next 1 5 (first_poll (runtime_of coroutines) 5 1 fresh))
serve-Served_example =
    serve-Served counts laws bounds next next-Reports 1 5 1 fresh refl (omega arith) (omega arith)

-- A spurious event, the start of the subtask, and its return.
abbrev events : List Event
events =
    record { event = event_none; waitable = 0; status = 0 }
    ∷ record { event = event_subtask; waitable = 1; status = status_started }
    ∷ record { event = event_subtask; waitable = 1; status = status_returned }
    ∷ []

returned-Suits :
    (s : FutureState)
    → some waiting_state ≡ some s
    → Expected laws event_subtask 1 status_returned s
returned-Suits s e = inr (
    inr (
      refl,
      refl,
      subst (λ y. lookup 1 y.futures ≢ none) {x = waiting_state} {y = s} (cc e) (λ l. cc l),
    ))

events-Fits : Fits counts laws bounds 5 events (first_poll (runtime_of coroutines) 5 1 fresh)
unfolding first_poll callback deliver_next poll loop_poll while poll_round run_task spawn reply
    wrapped return_result wrap_spawned
events-Fits =
    (λ n s e. inl refl, (λ n s e. inr (inl (refl, refl)), (λ n s e. returned-Suits s e, tt)))

drive-Driven_example :
    Returns
      (Driven counts laws bounds 1 0)
      (drive (runtime_of coroutines) 5 events (first_poll (runtime_of coroutines) 5 1 fresh))
drive-Driven_example =
    drive-Driven counts laws bounds 5 1 fresh events refl (omega arith) events-Fits
