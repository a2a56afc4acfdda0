-- ===== src/AsyncSupport/Methods/Examples.antt =====
-- A program that schedules, stops the loop, and then asks for a timer, on both loops.
use pycage.Prelude.{◌≡◌, refl, false, true, none, List, [], ◌∷◌}
use pycage.Asyncio.{
  Use, calls, awaits, call_soon, create_task, stop, is_running, call_later, create_future,
  scheduling,
}
use pycage.PollLoop.EventLoop.{PollLoop}
use pycage.PollLoop.EventLoop.Methods
use pycage.AsyncSupport.{FutureState, first_state}
use pycage.AsyncSupport
use pycage.AsyncSupport.Methods.{Loop, method, set_up, set_future_state}

abbrev program : List Use
program =
    calls (call_soon 4 true)
    ∷ awaits (create_task 5 false)
    ∷ calls stop
    ∷ calls is_running
    ∷ awaits (scheduling call_later)
    ∷ awaits create_future
    ∷ []

abbrev poll_loop : PollLoop
poll_loop = record { wakers = (2, 8) ∷ []; running = true; handles = 3 ∷ []; exception = none }

-- The state that `first_poll` makes, before its task is created.
abbrev begun : FutureState
begun = record { waitable_set = none; futures = []; handles = []; pending_count = 1 }

abbrev loop : Loop
loop = set_up (first_state 3)

-- `first_poll` sets the state of its context and creates its task there.
first_task : (method (create_task 3 true) (set_future_state begun (set_up begun))).1 ≡ loop
unfolding method AsyncSupport.call_soon
first_task = refl
