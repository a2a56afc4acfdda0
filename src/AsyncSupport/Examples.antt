-- ===== src/AsyncSupport/Examples.antt =====
-- A runtime in which task 1 spawns task 2 and waits for a waitable once, and every other task ends
-- at once.
use pycage.Prelude.{
  ℕ, suc, ◌+◌, ◌*◌, ◌≤◌, ◌≡◌, ◌≢◌, refl, Bool, true, false, none, some, [], ◌∷◌, arith, ◌==◌, inr,
  length, ◌||◌,
}
use pycage.Result.{ok, err}
use pycage.Loop.{Returns, while}
use pycage.AsyncSupport.{
  FutureState, suspends, parks, finishes, Step, Runtime, Guest, Active, not_implemented,
  event_subtask, status_returned, run_task, loop_poll, poll_round, first_poll, poll, reply, spawn,
  callback,
}
use pycage.AsyncSupport.Samples.{
  World, member, greatest, without, member-greatest, member-without, spawn_some, spawn_some-le,
}
use pycage.AsyncSupport.Tasks.{RuntimeLaws, IsConsistent}
use pycage.AsyncSupport.Callback.{Answers, callback-Answers}
use Prim.Native.Nat.{◌<◌, ◌^◌}
use pycage.AsyncSupport.Code.{Decodes, reply-Decodes}
use pycage.AsyncSupport.Failure.{AllRefused, AllFail, callback-AllRefused, first_poll-AllFail}

abbrev step_of : Bool → Bool → World → Step × World
step_of true false w =
    let x = suc (greatest w.open_waitables) in
    let (ts, n) = spawn_some w.spawns_left in
    (
      record { spawned = ts; ended = suspends x },
      record { open_waitables = x ∷ w.open_waitables; has_waited = true; spawns_left = n },
    )
step_of _ _ w = (record { spawned = []; ended = finishes }, w)

abbrev runtime : Runtime World
runtime = record {
  cancelled = λ w t. false;
  resume = λ w t. step_of (t == 1) w.has_waited w;
  waitable_set_new = λ w. (7, w);
  waitable_set_drop = λ w set. w;
  waitable_join = λ w x set. w;
  subtask_drop = λ w x. record w { open_waitables = without x w.open_waitables };
}

never_parks_here : (b c : Bool) (w : World) → (step_of b c w).0.ended ≢ parks
never_parks_here true false w e = cc
never_parks_here true true w e = cc
never_parks_here false c w e = cc

step-work :
    (b c : Bool) (w : World)
    → (step_of b c w).1.spawns_left + length (step_of b c w).0.spawned ≤ w.spawns_left
step-work true false w = spawn_some-le w.spawns_left
step-work true true w = omega arith
step-work false c w = omega arith

step-fresh :
    (b c : Bool) (w : World) (x : ℕ)
    → (step_of b c w).0.ended ≡ suspends x
    → member x w.open_waitables ≡ false
step-fresh true false w x e =
    ground (arith, member-greatest (greatest w.open_waitables) w.open_waitables)
step-fresh true true w x e = cc
step-fresh false c w x e = cc

step-suspends :
    (b c : Bool) (w : World) (x y : ℕ)
    → (step_of b c w).0.ended ≡ suspends x
    → member y (step_of b c w).1.open_waitables ≡ (x == y || member y w.open_waitables)
step-suspends true false w x y e = ground arith
step-suspends true true w x y e = cc
step-suspends false c w x y e = cc

step-keeps :
    (b c : Bool) (w : World) (y : ℕ)
    → member y w.open_waitables ≡ true
    → member y (step_of b c w).1.open_waitables ≡ true
step-keeps true false w y e = ground arith
step-keeps true true w y e = e
step-keeps false c w y e = e

abbrev laws : RuntimeLaws runtime
laws = record {
  outstanding = λ w x. member x w.open_waitables;
  work = λ w. w.spawns_left;
  never_cancelled = λ w t. refl;
  never_parks = λ w t. never_parks_here (t == 1) w.has_waited w;
  resume-work = λ w t. step-work (t == 1) w.has_waited w;
  resume-fresh = λ w t. step-fresh (t == 1) w.has_waited w;
  resume-suspends = λ w t. step-suspends (t == 1) w.has_waited w;
  resume-keeps = λ w t. step-keeps (t == 1) w.has_waited w;
  new-outstanding = λ w y. refl;
  new-work = λ w. refl;
  join-outstanding = λ w x set y. refl;
  join-work = λ w x set. refl;
  drop-outstanding = λ w x y. member-without x y w.open_waitables;
  drop-work = λ w x. refl;
}

abbrev fresh_world : World
fresh_world = record { open_waitables = []; has_waited = false; spawns_left = 1 }

abbrev fresh : Guest World
fresh = record { exception = none; slot = none; world = fresh_world }

-- What the guest leaves with the host after the first step: task 1 is suspended on waitable 1.
abbrev waiting_state : FutureState
waiting_state = record {
  waitable_set = some 7;
  futures = (1, 1) ∷ [];
  handles = [];
  pending_count = 1;
}

abbrev waiting : Guest World
waiting = record {
  exception = none;
  slot = some waiting_state;
  world = record { open_waitables = 1 ∷ []; has_waited = true; spawns_left = 0 };
}

first_waits : first_poll runtime 5 1 fresh ≡ some (ok (2 + 7 * 16), waiting)
unfolding first_poll poll loop_poll while poll_round run_task spawn reply
first_waits = refl

then_exits :
    callback runtime 5 event_subtask 1 status_returned waiting
    ≡ some (
      ok 0,
      record {
        exception = none;
        slot = none;
        world = record { open_waitables = []; has_waited = true; spawns_left = 0 };
      },
    )
unfolding callback poll loop_poll while poll_round run_task spawn reply
then_exits = refl

waiting-IsConsistent : IsConsistent laws 0 waiting_state waiting.world
waiting-IsConsistent = record {
  counted = refl;
  known = (refl, tt);
  distinct = (refl, tt);
  has_set = λ e. cc;
}

callback-Answers_example :
    Returns (Answers laws) (callback runtime 5 event_subtask 1 status_returned waiting)
callback-Answers_example =
    callback-Answers laws 5 event_subtask 1 status_returned waiting_state waiting (omega arith) refl
      waiting-IsConsistent (inr (inr (refl, refl, λ e. cc)))

callback-AllRefused_example :
    (callback runtime 5 4 1 0 waiting ≡ some (err not_implemented, record waiting { slot = none }))
    × AllRefused runtime 5 ((4, 1, 0) ∷ (event_subtask, 1, status_returned) ∷ []) waiting
callback-AllRefused_example =
    callback-AllRefused runtime 5 4 1 0 ((event_subtask, 1, status_returned) ∷ []) waiting
      (omega arith) (omega arith)

first_poll-AllFail_example : AllFail runtime 1 3 (1 ∷ 2 ∷ []) (record fresh { exception = some 3 })
first_poll-AllFail_example =
    first_poll-AllFail runtime 0 (1 ∷ 2 ∷ []) (record fresh { exception = some 3 }) refl

abbrev suspended : Active World
suspended = record { tasks = waiting_state; guest = fresh }

set_small : (set : ℕ) → waiting_state.waitable_set ≡ some set → set < 2 ^ 28
set_small set e = ground arith

reply-Decodes_example : Decodes runtime suspended 114
unfolding reply
reply-Decodes_example = reply-Decodes runtime suspended 114 set_small refl
