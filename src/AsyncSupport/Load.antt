-- ===== src/AsyncSupport/Load.antt =====
-- The work that is left to a call: the tasks that can still be spawned, and those that are queued.
use mathlib.Core.List.{foldl}
use pycage.Prelude.{
  ℕ, ◌+◌, ◌≤◌, ◌≡◌, refl, Option, none, some, List, [], ◌∷◌, arith, length, length-append, ap,
}
use pycage.AsyncSupport.{
  TaskId, Waitable, End, suspends, parks, finishes, fails, Runtime, Active, finish, join_set,
  await_result, end_step, run_task,
}
use pycage.AsyncSupport.Tasks.{RuntimeLaws, foldl-spawn, resumed, run_task-eq}

module _ {W : Type 0} {runtime : Runtime W} (laws : RuntimeLaws runtime) where
  open laws use {work}

  join_set-work :
      (set : Option ℕ) (x : Waitable) (w : W) → work (join_set runtime set x w).1 ≡ work w
  unfolding join_set
  join_set-work none x w = ground (
    arith,
    laws.join-work (runtime.waitable_set_new w).1 x (runtime.waitable_set_new w).0,
    laws.new-work w,
  )
  join_set-work (some set) x w = laws.join-work w x set

  pub end_step-work :
      (t : TaskId) (e : End) (a : Active W)
      → work (end_step runtime t e a).guest.world ≡ work a.guest.world
  unfolding end_step
  end_step-work t (suspends x) a = join_set-work a.tasks.waitable_set x a.guest.world
  end_step-work t parks a = refl
  end_step-work t finishes a = refl
  end_step-work t (fails e) a = refl

  -- The tasks that can still be spawned and those that are queued.
  abbrev pub load : Active W → ℕ
  load a = work a.guest.world + length a.tasks.handles

  end_step-handles :
      (t : TaskId) (e : End) (a : Active W)
      → (end_step runtime t e a).tasks.handles ≡ a.tasks.handles
  unfolding end_step await_result finish
  end_step-handles t (suspends x) a = refl
  end_step-handles t parks a = refl
  end_step-handles t finishes a = ground arith
  end_step-handles t (fails e) a = ground arith

  resumed-load : (t : TaskId) (a : Active W) → load (resumed laws t a) ≤ load a
  resumed-load t a = rw (foldl-spawn laws (runtime.resume a.guest.world t).0.spawned a.tasks) (
      omega (
        arith,
        length-append a.tasks.handles (runtime.resume a.guest.world t).0.spawned,
        laws.resume-work a.guest.world t,
      ))

  run_task-load : (a : Active W) (t : TaskId) → load (run_task runtime a t) ≤ load a
  run_task-load a t = rw (run_task-eq laws a t) (
      omega (
        arith,
        resumed-load t a,
        end_step-work t (runtime.resume a.guest.world t).0.ended (resumed laws t a),
        ap length (end_step-handles t (runtime.resume a.guest.world t).0.ended (resumed laws t a)),
      ))

  -- A round spawns no more than the coroutines can.
  pub run_tasks-load :
      (ts : List TaskId) (a : Active W) → load (foldl (run_task runtime) a ts) ≤ load a
  run_tasks-load [] a = omega arith
  run_tasks-load (t ∷ ts) a =
      omega (arith, run_tasks-load ts (run_task runtime a t), run_task-load a t)
