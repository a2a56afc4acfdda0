-- ===== src/AsyncSupport/Polling.antt =====
-- `_Loop.poll` ends: it returns when no task is queued, with every pending task suspended, or it
-- raises the exception that the loop has recorded.
use mathlib.Core.List.{foldl}
use pycage.Prelude.{
  false, ℕ, suc, ◌==◌, ◌+◌, ◌<◌, ◌≤◌, ◌≡◌, refl, Option, none, some, List, [], ◌∷◌, arith, length,
  ap, sym, subst,
}
use pycage.Result.{Result, ok, err}
use pycage.Loop.{Returns, Round, Round-and, while_total}
use pycage.AsyncSupport.{
  Runtime, Active, SupportError, recorded, ExceptionId, TaskId, run_task, after_round, poll_round,
  loop_poll,
}
use pycage.AsyncSupport.Tasks.{
  RuntimeLaws, IsConsistent, run_task-IsConsistent, run_tasks-IsConsistent,
}
use pycage.AsyncSupport.Load.{load, run_tasks-load}

module _ {W : Type 0} {runtime : Runtime W} (laws : RuntimeLaws runtime) where
  open laws use {work}

  abbrev pub Holds : Active W → Type 0
  Holds a = IsConsistent laws 0 a.tasks a.guest.world

  -- How `_Loop.poll` ends.
  abbrev pub Polled : Result (Unit {0}) SupportError → Active W → Type 0
  Polled (ok _) a = Holds a × (a.tasks.handles ≡ []) × (a.guest.exception ≡ none)
  Polled (err e) a = (x : ExceptionId) × (e ≡ recorded x) × (a.guest.exception ≡ some x)

  abbrev pub measure : Unit {0} → Active W → ℕ
  measure _ a = load laws a

  abbrev pub emptied : Active W → Active W
  emptied a = record a { tasks = record a.tasks { handles = [] } }

  emptied-IsConsistent :
      (a : Active W)
      → Holds a
      → IsConsistent laws (length a.tasks.handles) (emptied a).tasks a.guest.world
  emptied-IsConsistent a h = record {
    counted = omega (arith, h.counted);
    known = h.known;
    distinct = h.distinct;
    has_set = h.has_set;
  }

  after_round_owes :
      (handles : List TaskId) (x : Option ExceptionId) (b : Active W) (bound : ℕ)
      → Holds b
      → b.guest.exception ≡ x
      → load laws b + length handles ≤ bound
      → (handles ≡ [] → b.tasks.handles ≡ [])
      → Round
          (λ _ c. Holds c)
          Polled
          measure
          bound
          (after_round runtime handles x b).0
          (after_round runtime handles x b).1
  unfolding after_round
  after_round_owes handles (some e) b bound c p w n = (e, refl, p)
  after_round_owes [] none b bound c p w n =
      let none_left : length b.tasks.handles ≡ 0 = ap length (n refl) in rw none_left (c, n refl, p)
  after_round_owes (t ∷ ts) none b bound c p w n =
      let busy : (length (t ∷ ts) == 0) ≡ false = ground arith in rw busy (c, omega arith)

  pub poll_round_owes :
      (l : Unit {0}) (a : Active W)
      → Holds a
      → Round
          (λ _ b. Holds b)
          Polled
          measure
          (measure l a)
          (poll_round runtime l a).0
          (poll_round runtime l a).1
  unfolding poll_round
  poll_round_owes l a c =
      after_round_owes a.tasks.handles
        (foldl (run_task runtime) (emptied a) a.tasks.handles).guest.exception
        (foldl (run_task runtime) (emptied a) a.tasks.handles) (load laws a)
        (run_tasks-IsConsistent laws a.tasks.handles (emptied a) (emptied-IsConsistent a c)) refl
        (omega (arith, run_tasks-load laws a.tasks.handles (emptied a)))
        (λ e. none_ran a.tasks.handles (emptied a) refl e)
    where
      none_ran :
          (ts : List TaskId) (b : Active W)
          → b.tasks.handles ≡ []
          → ts ≡ []
          → (foldl (run_task runtime) b ts).tasks.handles ≡ []
      none_ran [] b h e = h
      none_ran (t ∷ ts) b h e = cc

  after_round-state :
      (ts : List TaskId) (x : Option ExceptionId) (b : Active W)
      → (after_round runtime ts x b).1 ≡ b
  unfolding after_round
  after_round-state ts (some e) b = refl
  after_round-state ts none b = ground arith

  poll_round-state :
      (l : Unit {0}) (a : Active W)
      → (poll_round runtime l a).1 ≡ foldl (run_task runtime) (emptied a) a.tasks.handles
  unfolding poll_round
  poll_round-state l a =
      after_round-state a.tasks.handles
        (foldl (run_task runtime) (emptied a) a.tasks.handles).guest.exception
        (foldl (run_task runtime) (emptied a) a.tasks.handles)

  -- What each task of a round keeps, given the tasks that are still to be run, the round keeps.
  pub round-Keeps :
      (J : List TaskId → Active W → Type 0)
      → ((n : ℕ) (t : TaskId) (ts : List TaskId) (a : Active W)
          → IsConsistent laws (suc n) a.tasks a.guest.world
          → J (t ∷ ts) a
          → J ts (run_task runtime a t))
      → (a : Active W) → Holds a
      → J a.tasks.handles (emptied a)
      → J [] (foldl (run_task runtime) (emptied a) a.tasks.handles)
  round-Keeps J keeps a h j = run_all a.tasks.handles (emptied a) (emptied-IsConsistent a h) j
    where
      run_all :
          (ts : List TaskId) (b : Active W)
          → IsConsistent laws (length ts) b.tasks b.guest.world
          → J ts b
          → J [] (foldl (run_task runtime) b ts)
      run_all [] b c j = j
      run_all (t ∷ ts) b c j =
          run_all ts (run_task runtime b t) (run_task-IsConsistent laws (length ts) b t c)
            (keeps (length ts) t ts b c j)

  -- What a round keeps beside the consistency of the tasks, `_Loop.poll` keeps.
  pub loop_poll-Keeps :
      (J : Active W → Type 0)
      → ((a : Active W) → Holds a → J a → J (foldl (run_task runtime) (emptied a) a.tasks.handles))
      → (fuel : ℕ) (a : Active W) → load laws a < fuel
      → Holds a
      → J a
      → Returns (λ r b. Polled r b × J b) (loop_poll runtime fuel a)
  unfolding loop_poll
  loop_poll-Keeps J keeps fuel a enough c j =
      while_total (λ _ b. Holds b × J b) (λ r b. Polled r b × J b) measure (poll_round runtime)
        (λ l b (h, i).
          Round-and (λ _ b. Holds b) Polled measure J (measure l b) (poll_round runtime l b).0
            (poll_round runtime l b).1 (poll_round_owes l b h)
            (subst J (sym (poll_round-state l b)) (keeps b h i)))
        fuel tt a enough (c, j)

  -- Where the runtime keeps its laws and each step of a task waits for the host or ends,
  -- `_Loop.poll` ends from any consistent state with more fuel than the tasks that are queued or
  -- can be spawned. When it returns, no task is queued, each pending task is suspended on a
  -- waitable of its own that has joined the set, and no exception is recorded; all that it raises
  -- is the recorded exception.
  pub loop_poll-Polled :
      (fuel : ℕ) (a : Active W)
      → load laws a < fuel
      → Holds a
      → Returns Polled (loop_poll runtime fuel a)
  unfolding loop_poll
  loop_poll-Polled fuel a enough c =
      while_total (λ _ b. Holds b) Polled measure (poll_round runtime) poll_round_owes fuel tt a
        enough c
