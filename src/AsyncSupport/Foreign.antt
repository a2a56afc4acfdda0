-- ===== src/AsyncSupport/Foreign.antt =====
-- What the tasks of one call leave alone: the subtasks that the tasks of other calls wait for.
use pycage.Prelude.{ℕ, ◌≤◌, ◌≡◌, ◌≢◌, true, Option, none, [], arith, ap, ◌∙◌, sym}
use pycage.AsyncSupport.{
  FutureState, Runtime, Active, TaskId, Waitable, ExceptionId, End, suspends, parks, finishes,
  fails, lookup, finish, await_result, end_step, run_task,
}
use pycage.AsyncSupport.Dict.{lookup-put_ne}
use pycage.AsyncSupport.Tasks.{RuntimeLaws, run_task-eq, resumed, foldl-spawn, join_set-outstanding}
use pycage.AsyncSupport.Load.{end_step-work}

module _ {W : Type 0} {runtime : Runtime W} (laws : RuntimeLaws runtime) where
  open laws use {work, outstanding}

  -- A waitable set that is dropped takes no waitable with it.
  pub record SetLaws : Type 0 where
    pub set_drop-outstanding :
        (w : W) (set : ℕ) (y : Waitable)
        → outstanding (runtime.waitable_set_drop w set) y ≡ outstanding w y
    pub set_drop-work : (w : W) (set : ℕ) → work (runtime.waitable_set_drop w set) ≡ work w

  -- The waitable is outstanding, and no task of the call waits for it.
  abbrev pub IsForeign : FutureState → W → Waitable → Type 0
  IsForeign s w y = (outstanding w y ≡ true) × (lookup y s.futures ≡ none)

  module _ (s : FutureState) (e : Option ExceptionId) (w : W) where
    -- What was foreign to the call still is, no task more can be spawned, and an exception that was
    -- recorded still is.
    pub record Minds (s' : FutureState) (e' : Option ExceptionId) (w' : W) : Type 0 where
      pub foreign : (y : Waitable) → IsForeign s w y → IsForeign s' w' y
      pub bounded : work w' ≤ work w
      pub recorded_before : e' ≡ none → e ≡ none

    finish-futures : (s' : FutureState) → (finish s').futures ≡ s'.futures
    unfolding finish
    finish-futures s' = ground arith

    end_step-IsForeign :
        (t : TaskId) (x : End) (y : Waitable) (a : Active W)
        → IsForeign a.tasks a.guest.world y
        → x ≢ suspends y
        → IsForeign (end_step runtime t x a).tasks (end_step runtime t x a).guest.world y
    unfolding end_step await_result
    end_step-IsForeign t (suspends x) y a (o, l) n = (
      join_set-outstanding laws a.tasks.waitable_set x a.guest.world y ∙ o,
      lookup-put_ne x y t a.tasks.futures (λ q. n (ap suspends (sym q))) ∙ l,
    )
    end_step-IsForeign t parks y a h n = h
    end_step-IsForeign t finishes y a (o, l) n = (o, ap (lookup y) (finish-futures a.tasks) ∙ l)
    end_step-IsForeign t (fails x) y a (o, l) n = (o, ap (lookup y) (finish-futures a.tasks) ∙ l)

    end_step-recorded :
        (t : TaskId) (x : End) (a : Active W)
        → (end_step runtime t x a).guest.exception ≡ none
        → a.guest.exception ≡ none
    unfolding end_step await_result
    end_step-recorded t (suspends x) a q = q
    end_step-recorded t parks a q = q
    end_step-recorded t finishes a q = q
    end_step-recorded t (fails x) a q = cc

    resumed-IsForeign :
        (t : TaskId) (a : Active W) (y : Waitable)
        → IsForeign a.tasks a.guest.world y
        → IsForeign (resumed laws t a).tasks (resumed laws t a).guest.world y
    resumed-IsForeign t a y (o, l) = (
      laws.resume-keeps a.guest.world t y o,
      ap (λ (s' : FutureState). lookup y s'.futures)
            (foldl-spawn laws (runtime.resume a.guest.world t).0.spawned a.tasks)
          ∙ l,
    )

    pub run_task-Minds :
        (t : TaskId) (a : Active W)
        → Minds a.tasks a.guest.exception a.guest.world
        → Minds
            (run_task runtime a t).tasks
            (run_task runtime a t).guest.exception
            (run_task runtime a t).guest.world
    run_task-Minds t a m = rw (run_task-eq laws a t) (record {
      foreign = λ y h.
          let (o, l) = m.foreign y h in
          end_step-IsForeign t (runtime.resume a.guest.world t).0.ended y (resumed laws t a)
            (resumed-IsForeign t a y (o, l)) (λ q. cc (laws.resume-fresh a.guest.world t y q, o));
      bounded = omega (
        arith,
        m.bounded,
        laws.resume-work a.guest.world t,
        end_step-work laws t (runtime.resume a.guest.world t).0.ended (resumed laws t a),
      );
      recorded_before = λ q.
          m.recorded_before
            (end_step-recorded t (runtime.resume a.guest.world t).0.ended (resumed laws t a) q);
    })

    pub set_drop-Minds :
        SetLaws
        → (s' : FutureState) (e' : Option ExceptionId) (w' : W) (set : ℕ) → Minds s' e' w'
        → Minds s' e' (runtime.waitable_set_drop w' set)
    set_drop-Minds sets s' e' w' set m = record {
      foreign = λ y h. (sets.set_drop-outstanding w' set y ∙ (m.foreign y h).0, (m.foreign y h).1);
      bounded = omega (arith, m.bounded, sets.set_drop-work w' set);
      recorded_before = m.recorded_before;
    }

    pub emptied-Minds :
        (s' : FutureState) (e' : Option ExceptionId) (w' : W)
        → Minds s' e' w'
        → Minds (record s' { handles = [] }) e' w'
    emptied-Minds s' e' w' m = record {
      foreign = m.foreign;
      bounded = m.bounded;
      recorded_before = m.recorded_before;
    }
