-- ===== src/AsyncSupport/Wrappers/Count.antt =====
-- The results that the host was given, and the tasks of `first_poll` that still owe one, are as
-- many as the calls.
use mathlib.Core.List.{foldl}
use pycage.Prelude.{
  ℕ, suc, ◌+◌, ◌≡◌, ◌≢◌, refl, Option, none, some, List, [], ◌∷◌, ◌++◌, arith, Option-cases, inl,
  inr,
}
use pycage.Result.{Result, ok, err}
use pycage.AsyncSupport.{
  TaskId, Waitable, End, suspends, parks, finishes, fails, FutureState, Active, put, lookup, remove,
  join_set, await_result, end_step, run_task, finish, spawn,
}
use pycage.AsyncSupport.Tasks.{
  RuntimeLaws, IsConsistent, run_task-eq, resumed, suspends-fresh, foldl-spawn,
}
use pycage.AsyncSupport.Polling.{Holds, emptied, round-Keeps}
use pycage.AsyncSupport.Wrappers.{
  Progress, waits, idles, returns, raises_err, raises, breaks, Coroutines, wrapped, task_return,
  return_result, wrap_spawned, runtime_of,
}

module _ {W V E : Type 0} (coroutines : Coroutines W V E) where
  abbrev pub is_root : Option ℕ → ℕ
  is_root none = 0
  is_root (some index) = 1

  -- How many of the tasks are of `first_poll`.
  abbrev pub roots : List TaskId → ℕ
  roots [] = 0
  roots (t ∷ ts) = is_root (coroutines.export_index t) + roots ts

  abbrev pub suspended_roots : List (Waitable × TaskId) → ℕ
  suspended_roots [] = 0
  suspended_roots ((x, t) ∷ fs) = is_root (coroutines.export_index t) + suspended_roots fs

  pub roots-append : (ts us : List TaskId) → roots (ts ++ us) ≡ roots ts + roots us
  roots-append [] us = omega arith
  roots-append (t ∷ ts) us = omega (arith, roots-append ts us)

  roots-put :
      (x : Waitable) (t : TaskId) (fs : List (Waitable × TaskId))
      → lookup x fs ≡ none
      → suspended_roots (put x t fs) ≡ is_root (coroutines.export_index t) + suspended_roots fs
  roots-put x t [] e = refl
  roots-put x t ((y, u) ∷ fs) e = ground (arith, roots-put x t fs)

  pub roots-remove :
      (x : Waitable) (t : TaskId) (fs : List (Waitable × TaskId))
      → lookup x fs ≡ some t
      → is_root (coroutines.export_index t) + suspended_roots (remove x fs) ≡ suspended_roots fs
  roots-remove x t [] e = cc
  roots-remove x t ((y, u) ∷ fs) e = ground (arith, roots-remove x t fs)

  -- `returned` counts the results that the host was given: `call_task_return` adds one where it
  -- does not raise, and nothing else changes it. A coroutine hands only tasks of its own to
  -- `spawn`.
  pub record ReturnLaws : Type 0 where
    pub returned : W → ℕ
    pub call-returned :
        (index : ℕ) (r : Result V E) (w : W)
        → (coroutines.call_task_return index r w).0 ≡ none
        → returned (coroutines.call_task_return index r w).1 ≡ suc (returned w)
    pub advance-returned : (w : W) (t : TaskId) → returned (coroutines.advance w t).1 ≡ returned w
    pub new-returned : (w : W) → returned (coroutines.waitable_set_new w).1 ≡ returned w
    pub join-returned :
        (w : W) (x : Waitable) (set : ℕ) → returned (coroutines.waitable_join w x set) ≡ returned w
    pub drop-returned : (w : W) (x : Waitable) → returned (coroutines.subtask_drop w x) ≡ returned w
    pub set_drop-returned :
        (w : W) (set : ℕ) → returned (coroutines.waitable_set_drop w set) ≡ returned w
    pub spawned-plain : (w : W) (t : TaskId) → roots (coroutines.advance w t).0.0 ≡ 0

module _ {W V E : Type 0} {coroutines : Coroutines W V E} (counts : ReturnLaws coroutines) where
  open counts use {returned}

  -- What a wrapper's step adds to the results of the host, by how it ends.
  abbrev Accounts : Option ℕ → W → End → W → Type 0
  Accounts root w (suspends x) w' = returned w' ≡ returned w
  Accounts root w parks w' = Unit {0}
  Accounts root w finishes w' = returned w' ≡ is_root coroutines root + returned w
  Accounts root w (fails e) w' = Unit {0}

  task_return-Accounts :
      (i : ℕ) (r : Result V E) (w : W)
      → Accounts (some i) w (task_return coroutines i r w).0 (task_return coroutines i r w).1
  task_return-Accounts i r w = elim (Option-cases (coroutines.call_task_return i r w).0) [
    | inl e ↦ rw e (omega (arith, counts.call-returned i r w e))
    | inr (x, e) ↦ rw e tt
  ]

  wrapped-Accounts :
      (root : Option ℕ) (p : Progress V E) (w : W)
      → Accounts root w (wrapped coroutines root p w).0 (wrapped coroutines root p w).1
  unfolding wrapped return_result wrap_spawned
  wrapped-Accounts none (waits x) w = refl
  wrapped-Accounts none idles w = tt
  wrapped-Accounts none (returns v) w = omega arith
  wrapped-Accounts none (raises_err e) w = tt
  wrapped-Accounts none (raises e) w = tt
  wrapped-Accounts none breaks w = tt
  wrapped-Accounts (some i) (waits x) w = refl
  wrapped-Accounts (some i) idles w = tt
  wrapped-Accounts (some i) (returns v) w = task_return-Accounts i (ok v) w
  wrapped-Accounts (some i) (raises_err e) w = task_return-Accounts i (err e) w
  wrapped-Accounts (some i) (raises e) w = tt
  wrapped-Accounts (some i) breaks w = tt

  -- Where no exception is recorded, the results that the host was given and the tasks of
  -- `first_poll` that are still to be run (`left`), queued or suspended are as many as the calls.
  abbrev pub Counted : ℕ → List TaskId → Active W → Type 0
  Counted total left a =
      a.guest.exception ≡ none
      → returned a.guest.world
          + roots coroutines left
          + roots coroutines a.tasks.handles
          + suspended_roots coroutines a.tasks.futures
        ≡ total

  join_set-returned :
      (set : Option ℕ) (x : Waitable) (w : W)
      → returned (join_set (runtime_of coroutines) set x w).1 ≡ returned w
  unfolding join_set
  join_set-returned none x w = ground (
    arith,
    counts.join-returned (coroutines.waitable_set_new w).1 x (coroutines.waitable_set_new w).0,
    counts.new-returned w,
  )
  join_set-returned (some set) x w = counts.join-returned w x set

  finish-same :
      (s : FutureState) → ((finish s).handles ≡ s.handles) × ((finish s).futures ≡ s.futures)
  unfolding finish
  finish-same s = ground arith

  end_step-Counted :
      (total : ℕ) (t : TaskId) (ts : List TaskId) (e : End) (w : W) (b : Active W)
      → e ≢ parks
      → ((x : Waitable) → e ≡ suspends x → lookup x b.tasks.futures ≡ none)
      → Accounts (coroutines.export_index t) w e b.guest.world
      → (b.guest.exception ≡ none
          → returned w
              + (is_root coroutines (coroutines.export_index t) + roots coroutines ts)
              + roots coroutines b.tasks.handles
              + suspended_roots coroutines b.tasks.futures
            ≡ total)
      → Counted total ts (end_step (runtime_of coroutines) t e b)
  unfolding end_step await_result
  end_step-Counted total t ts (suspends x) w b p f h c q = omega (
    arith,
    c q,
    h,
    roots-put coroutines x t b.tasks.futures (f x refl),
    join_set-returned b.tasks.waitable_set x b.guest.world,
  )
  end_step-Counted total t ts parks w b p f h c q = absurd (p refl)
  end_step-Counted total t ts finishes w b p f h c q = ground (arith, c q, finish-same b.tasks)
  end_step-Counted total t ts (fails e) w b p f h c q = cc

  module _ (laws : RuntimeLaws (runtime_of coroutines)) where
    run_task-Counted :
        (total n : ℕ) (t : TaskId) (ts : List TaskId) (a : Active W)
        → IsConsistent laws n a.tasks a.guest.world
        → Counted total (t ∷ ts) a
        → Counted total ts (run_task (runtime_of coroutines) a t)
    run_task-Counted total n t ts a k c = rw (run_task-eq laws a t) (
        end_step-Counted total t ts ((runtime_of coroutines).resume a.guest.world t).0.ended
          (coroutines.advance a.guest.world t).1 (resumed laws t a)
          (laws.never_parks a.guest.world t) (λ x e. suspends-fresh laws n a t x k e)
          (wrapped-Accounts (coroutines.export_index t) (coroutines.advance a.guest.world t).0.1
            (coroutines.advance a.guest.world t).1)
          resumed-Counted)
      where
        spawned : List TaskId
        spawned = (coroutines.advance a.guest.world t).0.0

        resumed-Counted :
            a.guest.exception ≡ none
            → returned (coroutines.advance a.guest.world t).1
                + (is_root coroutines (coroutines.export_index t) + roots coroutines ts)
                + roots coroutines (foldl spawn a.tasks spawned).handles
                + suspended_roots coroutines (foldl spawn a.tasks spawned).futures
              ≡ total
        resumed-Counted e = rw (foldl-spawn laws spawned a.tasks) (
            omega (
              arith,
              c e,
              counts.advance-returned a.guest.world t,
              counts.spawned-plain a.guest.world t,
              roots-append coroutines a.tasks.handles spawned,
            ))

    -- The round of `_Loop.poll` keeps the count.
    pub round-Counted :
        (total : ℕ) (a : Active W)
        → Holds laws a
        → Counted total [] a
        → Counted total []
            (foldl (run_task (runtime_of coroutines)) (emptied laws a) a.tasks.handles)
    round-Counted total a h c =
        round-Keeps laws (Counted total) (λ n. run_task-Counted total (suc n)) a h
          (λ e. omega (arith, c e))
