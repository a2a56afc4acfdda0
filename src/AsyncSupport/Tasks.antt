-- ===== src/AsyncSupport/Tasks.antt =====
-- No task is lost: a step of a task keeps the count of the pending tasks equal to that of the
-- queued and the suspended ones.
use mathlib.Core.List.{foldl}
use pycage.Prelude.{
  ℕ, suc, ◌+◌, ◌≤◌, ◌-◌, ◌≡◌, ◌≢◌, refl, Bool, true, false, ◌||◌, not, ◌&&◌, Option, none, some,
  List, [], ◌∷◌, ◌++◌, arith, length, length-append, ◌==◌, append-nil, append_assoc, ap, ◌∙◌,
}
use pycage.AsyncSupport.{
  TaskId, Waitable, FutureState, End, suspends, parks, finishes, fails, Runtime, Active, lookup,
  spawn, finish, join_set, await_result, end_step, run_task,
}
use pycage.AsyncSupport.Dict.{
  is_none, All, Distinct, All-map, All-put, lookup-fresh, length-put, Distinct-put,
}

-- What the host documents of waitables, and what is assumed of the coroutines: handles are not
-- cancelled; a step waits for the host or ends; they spawn finitely many tasks, which `work`
-- bounds; and a waitable that a step suspends on was not outstanding before. A waitable is
-- outstanding until it is dropped.
pub record RuntimeLaws {W : Type 0} (runtime : Runtime W) : Type 0 where
  pub outstanding : W → Waitable → Bool
  pub work : W → ℕ
  pub never_cancelled : (w : W) (t : TaskId) → runtime.cancelled w t ≡ false
  pub never_parks : (w : W) (t : TaskId) → (runtime.resume w t).0.ended ≢ parks
  pub resume-work :
      (w : W) (t : TaskId)
      → work (runtime.resume w t).1 + length (runtime.resume w t).0.spawned ≤ work w
  pub resume-fresh :
      (w : W) (t : TaskId) (x : Waitable)
      → (runtime.resume w t).0.ended ≡ suspends x
      → outstanding w x ≡ false
  pub resume-suspends :
      (w : W) (t : TaskId) (x y : Waitable)
      → (runtime.resume w t).0.ended ≡ suspends x
      → outstanding (runtime.resume w t).1 y ≡ (x == y || outstanding w y)
  pub resume-keeps :
      (w : W) (t : TaskId) (y : Waitable)
      → outstanding w y ≡ true
      → outstanding (runtime.resume w t).1 y ≡ true
  pub new-outstanding :
      (w : W) (y : Waitable) → outstanding (runtime.waitable_set_new w).1 y ≡ outstanding w y
  pub new-work : (w : W) → work (runtime.waitable_set_new w).1 ≡ work w
  pub join-outstanding :
      (w : W) (x : Waitable) (set : ℕ) (y : Waitable)
      → outstanding (runtime.waitable_join w x set) y ≡ outstanding w y
  pub join-work : (w : W) (x : Waitable) (set : ℕ) → work (runtime.waitable_join w x set) ≡ work w
  pub drop-outstanding :
      (w : W) (x y : Waitable)
      → outstanding (runtime.subtask_drop w x) y ≡ (not (x == y) && outstanding w y)
  pub drop-work : (w : W) (x : Waitable) → work (runtime.subtask_drop w x) ≡ work w

module _ {W : Type 0} {runtime : Runtime W} (laws : RuntimeLaws runtime) where
  open laws use {outstanding, work}

  -- Each pending task is still to be run in this round (`left` of them), or queued, or suspended
  -- on a waitable of its own; and there is a set that the waitables of the suspended tasks have
  -- joined.
  pub record IsConsistent (left : ℕ) (s : FutureState) (w : W) : Type 0 where
    pub counted : s.pending_count ≡ left + length s.handles + length s.futures
    pub known : All (λ x. outstanding w x ≡ true) s.futures
    pub distinct : Distinct s.futures
    pub has_set : is_none s.waitable_set ≡ true → length s.futures ≡ 0

  IsOutstanding : W → Waitable → Type 0
  IsOutstanding w x = outstanding w x ≡ true

  pub join_set-outstanding :
      (set : Option ℕ) (x : Waitable) (w : W) (y : Waitable)
      → outstanding (join_set runtime set x w).1 y ≡ outstanding w y
  unfolding join_set
  join_set-outstanding none x w y = ground (
    arith,
    laws.join-outstanding (runtime.waitable_set_new w).1 x (runtime.waitable_set_new w).0 y,
    laws.new-outstanding w y,
  )
  join_set-outstanding (some set) x w y = laws.join-outstanding w x set y

  -- The step's task is among the `left` tasks before its end, and is not after it.
  await-IsConsistent :
      (n : ℕ) (t : TaskId) (x : Waitable) (a : Active W)
      → IsConsistent (suc n) a.tasks a.guest.world
      → lookup x a.tasks.futures ≡ none
      → outstanding a.guest.world x ≡ true
      → IsConsistent n (await_result runtime t x a).tasks (await_result runtime t x a).guest.world
  unfolding await_result
  await-IsConsistent n t x a c fresh out = record {
    counted = omega (arith, c.counted, length-put x t a.tasks.futures fresh);
    known = All-put _ x t a.tasks.futures (keep x out) (All-map a.tasks.futures keep c.known);
    distinct = Distinct-put x t a.tasks.futures fresh c.distinct;
    has_set = λ e. cc;
  }
    where
      keep :
          (y : Waitable)
          → outstanding a.guest.world y ≡ true
          → outstanding (join_set runtime a.tasks.waitable_set x a.guest.world).1 y ≡ true
      keep y p = join_set-outstanding a.tasks.waitable_set x a.guest.world y ∙ p

  pub foldl-spawn :
      (ts : List TaskId) (s : FutureState)
      → foldl spawn s ts
        ≡ record s { handles = s.handles ++ ts; pending_count = s.pending_count + length ts }
  unfolding spawn
  foldl-spawn [] s = ground (arith, append-nil s.handles)
  foldl-spawn (t ∷ ts) s =
      foldl-spawn ts (spawn s t) ∙ ground (arith, append_assoc s.handles (t ∷ []) ts)

  -- The coroutine has run: its task is still among the `left` tasks, what it spawned is queued, and
  -- the waitables that were outstanding still are.
  resume-IsConsistent :
      (n : ℕ) (t : TaskId) (s : FutureState) (w : W)
      → IsConsistent (suc n) s w
      → IsConsistent (suc n) (foldl spawn s (runtime.resume w t).0.spawned) (runtime.resume w t).1
  resume-IsConsistent n t s w c = rw (foldl-spawn (runtime.resume w t).0.spawned s) (record {
    counted = omega (arith, c.counted, length-append s.handles (runtime.resume w t).0.spawned);
    known = All-map s.futures (laws.resume-keeps w t) c.known;
    distinct = c.distinct;
    has_set = c.has_set;
  })

  -- The assertion of a task that ends holds, and the task is counted no more.
  pub finish_lem :
      (s : FutureState)
      → s.pending_count ≢ 0
      → finish s ≡ record s { pending_count = s.pending_count - 1 }
  unfolding finish
  finish_lem s n = ground arith

  finish-IsConsistent :
      (n : ℕ) (s : FutureState) (w : W) → IsConsistent (suc n) s w → IsConsistent n (finish s) w
  finish-IsConsistent n s w c = rw (finish_lem s (omega (arith, c.counted))) (record {
    counted = omega (arith, c.counted);
    known = c.known;
    distinct = c.distinct;
    has_set = c.has_set;
  })

  end_step-IsConsistent :
      (n : ℕ) (t : TaskId) (e : End) (a : Active W)
      → IsConsistent (suc n) a.tasks a.guest.world
      → e ≢ parks
      → ((x : Waitable)
          → e ≡ suspends x
          → (lookup x a.tasks.futures ≡ none) × (outstanding a.guest.world x ≡ true))
      → IsConsistent n (end_step runtime t e a).tasks (end_step runtime t e a).guest.world
  unfolding end_step
  end_step-IsConsistent n t (suspends x) a c p f =
      await-IsConsistent n t x a c (f x refl).0 (f x refl).1
  end_step-IsConsistent n t parks a c p f = absurd (p refl)
  end_step-IsConsistent n t finishes a c p f = finish-IsConsistent n a.tasks a.guest.world c
  end_step-IsConsistent n t (fails e) a c p f = finish-IsConsistent n a.tasks a.guest.world c

  -- The guest after the coroutine has run and before its step ends.
  abbrev pub resumed : TaskId → Active W → Active W
  resumed t a = record {
    tasks = foldl spawn a.tasks (runtime.resume a.guest.world t).0.spawned;
    guest = record a.guest { world = (runtime.resume a.guest.world t).1 };
  }

  pub run_task-eq :
      (a : Active W) (t : TaskId)
      → run_task runtime a t
        ≡ end_step runtime t (runtime.resume a.guest.world t).0.ended (resumed t a)
  unfolding run_task
  run_task-eq a t = rw (laws.never_cancelled a.guest.world t)

  -- A waitable that a step suspends on is no key of the dict of futures.
  pub suspends-fresh :
      (n : ℕ) (a : Active W) (t : TaskId) (x : Waitable)
      → IsConsistent n a.tasks a.guest.world
      → (runtime.resume a.guest.world t).0.ended ≡ suspends x
      → lookup x (resumed t a).tasks.futures ≡ none
  suspends-fresh n a t x c e =
      ap (λ (s : FutureState). lookup x s.futures)
        (foldl-spawn (runtime.resume a.guest.world t).0.spawned a.tasks)
      ∙ lookup-fresh (outstanding a.guest.world) x a.tasks.futures c.known
          (laws.resume-fresh a.guest.world t x e)

  pub run_task-IsConsistent :
      (n : ℕ) (a : Active W) (t : TaskId)
      → IsConsistent (suc n) a.tasks a.guest.world
      → IsConsistent n (run_task runtime a t).tasks (run_task runtime a t).guest.world
  run_task-IsConsistent n a t c = rw (run_task-eq a t) (
      end_step-IsConsistent n t (runtime.resume a.guest.world t).0.ended (resumed t a)
        (resume-IsConsistent n t a.tasks a.guest.world c) (laws.never_parks a.guest.world t)
        (λ x e. (
          suspends-fresh (suc n) a t x c e,
          ground (arith, laws.resume-suspends a.guest.world t x x e),
        )))

  -- A round keeps every task.
  pub run_tasks-IsConsistent :
      (ts : List TaskId) (a : Active W)
      → IsConsistent (length ts) a.tasks a.guest.world
      → IsConsistent 0
          (foldl (run_task runtime) a ts).tasks
          (foldl (run_task runtime) a ts).guest.world
  run_tasks-IsConsistent [] a c = c
  run_tasks-IsConsistent (t ∷ ts) a c =
      run_tasks-IsConsistent ts (run_task runtime a t) (run_task-IsConsistent (length ts) a t c)
