-- ===== src/AsyncSupport/Joining.antt =====
-- The tasks that a call has begun: `pending_count` counts those that have not come to their end.
use pycage.Prelude.{ℕ, suc, ◌+◌, ◌≡◌, ◌≢◌, Option, none, some, arith, ap, ◌∙◌, length}
use pycage.AsyncSupport.{
  FutureState, Runtime, Active, TaskId, Waitable, End, suspends, parks, finishes, fails, join_set,
  await_result, end_step, run_task,
}
use pycage.AsyncSupport.Tasks.{
  RuntimeLaws, IsConsistent, run_task-eq, resumed, foldl-spawn, finish_lem,
}

abbrev pub ends_of : End → ℕ
ends_of (suspends x) = 0
ends_of parks = 0
ends_of finishes = 1
ends_of (fails e) = 1

-- `spawned` counts the tasks that were handed to `spawn`, and `ended` those that have come to their
-- end; only a step of a task changes them.
pub record TaskCounts {W : Type 0} (runtime : Runtime W) : Type 0 where
  pub spawned : W → ℕ
  pub ended : W → ℕ
  pub resume-spawned :
      (w : W) (t : TaskId)
      → spawned (runtime.resume w t).1 ≡ spawned w + length (runtime.resume w t).0.spawned
  pub resume-ended :
      (w : W) (t : TaskId)
      → ended (runtime.resume w t).1 ≡ ended w + ends_of (runtime.resume w t).0.ended
  pub new-counts :
      (w : W)
      → (spawned (runtime.waitable_set_new w).1 ≡ spawned w)
        × (ended (runtime.waitable_set_new w).1 ≡ ended w)
  pub join-counts :
      (w : W) (x : Waitable) (set : ℕ)
      → (spawned (runtime.waitable_join w x set) ≡ spawned w)
        × (ended (runtime.waitable_join w x set) ≡ ended w)
  pub set_drop-counts :
      (w : W) (set : ℕ)
      → (spawned (runtime.waitable_set_drop w set) ≡ spawned w)
        × (ended (runtime.waitable_set_drop w set) ≡ ended w)
  pub drop-counts :
      (w : W) (x : Waitable)
      → (spawned (runtime.subtask_drop w x) ≡ spawned w)
        × (ended (runtime.subtask_drop w x) ≡ ended w)

module _ {W : Type 0} {runtime : Runtime W} (laws : RuntimeLaws runtime)
    (tasks : TaskCounts runtime) where
  open tasks use {spawned, ended}

  module _ (before : ℕ) (w : W) where
    -- With `before` tasks pending at first: those, and the ones that were spawned since, have ended
    -- since or are pending.
    abbrev pub Joins : ℕ → W → Type 0
    Joins pending w' = spawned w' + ended w + before ≡ pending + ended w' + spawned w

    join_set-counts :
        (set : Option ℕ) (x : Waitable) (w' : W)
        → (spawned (join_set runtime set x w').1 ≡ spawned w')
          × (ended (join_set runtime set x w').1 ≡ ended w')
    unfolding join_set
    join_set-counts none x w' =
        let (a, b) =
          tasks.join-counts (runtime.waitable_set_new w').1 x (runtime.waitable_set_new w').0 in
        let (c, d) = tasks.new-counts w' in (a ∙ c, b ∙ d)
    join_set-counts (some set) x w' = tasks.join-counts w' x set

    -- `q` is the count of the ended tasks before the step.
    end_step-Joins :
        (t : TaskId) (e : End) (a : Active W) (q : ℕ)
        → a.tasks.pending_count ≢ 0
        → ended a.guest.world ≡ q + ends_of e
        → spawned a.guest.world + ended w + before ≡ a.tasks.pending_count + q + spawned w
        → Joins (end_step runtime t e a).tasks.pending_count (end_step runtime t e a).guest.world
    unfolding end_step await_result
    end_step-Joins t (suspends x) a q n c j =
        omega (arith, j, c, join_set-counts a.tasks.waitable_set x a.guest.world)
    end_step-Joins t parks a q n c j = omega (arith, j, c)
    end_step-Joins t finishes a q n c j = rw (finish_lem laws a.tasks n) (omega (arith, j, c, n))
    end_step-Joins t (fails e) a q n c j = rw (finish_lem laws a.tasks n) (omega (arith, j, c, n))

    pub run_task-Joins :
        (n : ℕ) (t : TaskId) (a : Active W)
        → IsConsistent laws (suc n) a.tasks a.guest.world
        → Joins a.tasks.pending_count a.guest.world
        → Joins (run_task runtime a t).tasks.pending_count (run_task runtime a t).guest.world
    run_task-Joins n t a c j = rw (run_task-eq laws a t) (
        end_step-Joins t (runtime.resume a.guest.world t).0.ended (resumed laws t a)
          (ended a.guest.world) (omega (arith, now, c.counted)) (tasks.resume-ended a.guest.world t)
          (omega (arith, j, now, tasks.resume-spawned a.guest.world t)))
      where
        now :
            (resumed laws t a).tasks.pending_count
            ≡ a.tasks.pending_count + length (runtime.resume a.guest.world t).0.spawned
        now =
            ap (λ (s : FutureState). s.pending_count)
              (foldl-spawn laws (runtime.resume a.guest.world t).0.spawned a.tasks)

    pub set_drop-Joins :
        (pending : ℕ) (w' : W) (set : ℕ)
        → Joins pending w'
        → Joins pending (runtime.waitable_set_drop w' set)
    set_drop-Joins pending w' set j = omega (arith, j, tasks.set_drop-counts w' set)
