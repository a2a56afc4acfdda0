-- ===== src/PollLoop/EventLoop/Examples.antt =====
-- A host with two waiters, of which a poll finds the second ready, and a future that is done when
-- one waiter has been resolved.
use pycage.Prelude.{
  ℕ, zero, suc, Bool, ◌-◌, ◌*◌, ◌≤◌, ◌≢◌, ◌+◌, ◌<◌, ◌≡◌, refl, true, false, none, some, List, [],
  ◌∷◌, ◌++◌, arith, ◌==◌, if◌then◌else◌, length,
}
use pycage.Result.{ok}
use pycage.Loop.{Returns}
use pycage.PollLoop.EventLoop.{
  PollableId, Call, call_soon, Host, State, init, soon, waits, invalid_state, run_handles, mark,
  wake_all, poll_wakers, ensure_future, run_until_complete,
}
use pycage.PollLoop.EventLoop.Polling.{Polled, Fails, poll_wakers-Polled, poll_wakers-err}
use pycage.PollLoop.EventLoop.Fifo.{run_fronts, run_handles-Fifo}
use pycage.PollLoop.EventLoop.Turn.{scheduled, registered, Ended, run_handles_lem}
use pycage.PollLoop.EventLoop.Tasks.{AreInside, TaskLaws}
use pycage.PollLoop.EventLoop.Completion.{Raises, run_until_complete-Ended}

-- The wakers that have their result, and the pollables that were given back.
record World : Type 0 where
  results : List ℕ
  returned : List ℕ

-- Handle 1 schedules handle 5 and waits for pollable 30 with waker 3; handle 2 is cancelled; waker
-- 7 has been cancelled. A poll finds the pollable at position 1 ready.
abbrev host : Host World
host = record {
  cancelled = λ w h. h == 2;
  run = λ w h. (if h == 1 then (soon 5 ∷ waits 30 3 ∷ []) else [], w);
  poll = λ w ps. (1 ∷ [], w);
  exit = λ w p. record w { returned = w.returned ++ p ∷ [] };
  set_result = λ w k.
      if k == 7
      then (none, w)
      else (some ((k + 100) ∷ []), record w { results = w.results ++ k ∷ [] });
  done = λ w. length w.results == 1;
}

abbrev quiet : World
quiet = record { results = []; returned = [] }

abbrev waiting_with : ℕ → State World
waiting_with k = record {
  loop = record init { wakers = (10, 1) ∷ (20, k) ∷ []; handles = 1 ∷ 2 ∷ 4 ∷ [] };
  world = quiet;
}

poll_second : poll_wakers host (waiting_with 2) ≡ (
  ok tt,
  record {
    loop = record init { wakers = (10, 1) ∷ []; handles = 1 ∷ 2 ∷ 4 ∷ 102 ∷ [] };
    world = record { results = 2 ∷ []; returned = 20 ∷ [] };
  },
)
unfolding poll_wakers wake_all mark call_soon
poll_second = refl

poll_wakers-Polled_example :
    Polled host
      (1 ∷ [])
      quiet
      ((10, 1) ∷ (20, 2) ∷ [])
      (waiting_with 2)
      (poll_wakers host (waiting_with 2)).1
unfolding poll_wakers wake_all mark call_soon
poll_wakers-Polled_example = poll_wakers-Polled host (waiting_with 2) (λ e. cc) refl

poll_wakers-err_example :
    Fails host
      (waiting_with 7).loop.wakers
      invalid_state
      (waiting_with 7)
      (poll_wakers host (waiting_with 7)).1
unfolding poll_wakers wake_all mark call_soon
poll_wakers-err_example = poll_wakers-err host (waiting_with 7) refl

run_handles_lem_example : run_handles host (waiting_with 2) ≡ record {
  loop = record init { wakers = (10, 1) ∷ (20, 2) ∷ (30, 3) ∷ []; handles = 5 ∷ [] };
  world = quiet;
}
run_handles_lem_example = run_handles_lem host (waiting_with 2)

run_handles-Fifo_example : run_handles host (waiting_with 2) ≡ run_fronts host 3 (waiting_with 2)
run_handles-Fifo_example = run_handles-Fifo host (waiting_with 2)

-- A task that waits for pollable 10 with waker 1 as often as it has waits left, and is done then.
record TaskWorld : Type 0 where
  waits_left : ℕ
  finished : Bool

abbrev step_of : ℕ → TaskWorld → List Call × TaskWorld
step_of zero w = ([], record { waits_left = 0; finished = true })
step_of (suc n) w = (waits 10 1 ∷ [], record w { waits_left = n })

abbrev first_of : List PollableId → List ℕ
first_of [] = []
first_of (p ∷ ps) = 0 ∷ []

abbrev task_host : Host TaskWorld
task_host = record {
  cancelled = λ w h. false;
  run = λ w h. step_of w.waits_left w;
  poll = λ w ps. (first_of ps, w);
  exit = λ w p. w;
  set_result = λ w k. (some (1 ∷ []), w);
  done = λ w. w.finished;
}

abbrev active_of : Bool → ℕ
active_of true = 0
active_of false = 1

step-work :
    (n : ℕ) (w : TaskWorld)
    → 2 * (step_of n w).1.waits_left
        + length (scheduled (step_of n w).0)
        + 2 * length (registered (step_of n w).0)
      ≤ 2 * n
step-work zero w = omega arith
step-work (suc n) w = omega arith

step-active :
    (n : ℕ) (w : TaskWorld)
    → active_of (step_of n w).1.finished
      ≤ active_of w.finished
        - 1
        + length (scheduled (step_of n w).0)
        + length (registered (step_of n w).0)
step-active zero w = omega arith
step-active (suc n) w = omega arith

unfinished-active : (b : Bool) → b ≡ false → 0 < active_of b
unfinished-active true e = cc
unfinished-active false e = omega arith

first-some : (ps : List PollableId) → ps ≢ [] → first_of ps ≢ []
first-some [] n e = n refl
first-some (p ∷ ps) n e = cc

first-AreInside : (ps : List PollableId) → AreInside (length ps) (first_of ps)
first-AreInside [] = tt
first-AreInside (p ∷ ps) = (omega arith, tt)

abbrev task_laws : TaskLaws task_host
task_laws = record {
  work = λ w. 2 * w.waits_left;
  active = λ w. active_of w.finished;
  never_cancelled = λ w h. refl;
  run-work = λ w h. step-work w.waits_left w;
  run-active = λ w h. step-active w.waits_left w;
  done-active = λ w. unfinished-active w.finished;
  poll-some = λ w. first-some;
  poll-inside = λ w. first-AreInside;
  poll-work = λ w ps. refl;
  poll-active = λ w ps. refl;
  exit-work = λ w p. refl;
  exit-active = λ w p. refl;
  are_waiting = λ w ks. true;
  run-waiting = λ w h ks v. v;
  poll-waiting = λ w ps ks v. v;
  exit-waiting = λ w p ks v. v;
  result-wakes = λ w ks k js v. (1, refl, refl);
  result-work = λ w k. refl;
  result-active = λ w k. refl;
}

abbrev at_rest : State TaskWorld
at_rest = record { loop = init; world = record { waits_left = 2; finished = false } }

run_until_complete-Ended_example :
    Returns (Ended task_host (Raises task_laws)) (run_until_complete task_host 6 (some 1) at_rest)
unfolding ensure_future
run_until_complete-Ended_example =
    run_until_complete-Ended task_laws 6 (some 1) at_rest (omega arith) refl (omega arith)
