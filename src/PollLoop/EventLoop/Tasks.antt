-- ===== src/PollLoop/EventLoop/Tasks.antt =====
-- The tasks that the loop runs: what a handle that runs, and a poll, make of the work that is left.
use mathlib.Core.List.{foldl}
use pycage.Prelude.{
  ℕ, suc, ◌+◌, ◌-◌, ◌*◌, ◌<◌, ◌≤◌, ◌≡◌, ◌≢◌, Bool, true, false, some, List, [], ◌∷◌, length, arith,
  length-append, ap, refl, ◌++◌, subst, sym,
}
use pycage.PollLoop.EventLoop.{Host, State, PollableId, WakerId, HandleId, run_handle, run_handles}
use pycage.PollLoop.EventLoop.Turn.{scheduled, registered, called, foldl-perform}

-- Each index is below `n`.
abbrev pub AreInside : ℕ → List ℕ → Type 0
AreInside n [] = Unit {0}
AreInside n (i ∷ is) = (i < n) × AreInside n is

abbrev pub wakers_of : List (PollableId × WakerId) → List WakerId
wakers_of [] = []
wakers_of ((p, k) ∷ ws) = k ∷ wakers_of ws

pub wakers_of-append :
    (ws vs : List (PollableId × WakerId)) → wakers_of (ws ++ vs) ≡ wakers_of ws ++ wakers_of vs
wakers_of-append [] vs = refl
wakers_of-append ((p, k) ∷ ws) vs = ap (λ l. k ∷ l) (wakers_of-append ws vs)

-- What `asyncio` and the host document, where no task is cancelled: a handle is a step of a task,
-- which schedules steps or waits for pollables, or ends, and `work` bounds the steps that are
-- left; `active` counts the tasks that have a step scheduled or wait for a pollable, and there is one
-- while the future is not done; a poll of some pollables returns indices of them, at least one.
-- `are_waiting` says of wakers that they are different futures, each without a result: `register`
-- makes a new future, a poll and an exit leave futures alone, and the result of one of them, which
-- has one task that awaits it, schedules that task and leaves the others without a result.
pub record TaskLaws {W : Type 0} (host : Host W) : Type 0 where
  pub work : W → ℕ
  pub active : W → ℕ
  pub never_cancelled : (w : W) (h : HandleId) → host.cancelled w h ≡ false
  pub run-work :
      (w : W) (h : HandleId)
      → work (host.run w h).1
          + length (scheduled (host.run w h).0)
          + 2 * length (registered (host.run w h).0)
        ≤ work w
  pub run-active :
      (w : W) (h : HandleId)
      → active (host.run w h).1
        ≤ active w - 1 + length (scheduled (host.run w h).0) + length (registered (host.run w h).0)
  pub done-active : (w : W) → host.done w ≡ false → 0 < active w
  pub poll-some : (w : W) (ps : List PollableId) → ps ≢ [] → (host.poll w ps).0 ≢ []
  pub poll-inside : (w : W) (ps : List PollableId) → AreInside (length ps) (host.poll w ps).0
  pub poll-work : (w : W) (ps : List PollableId) → work (host.poll w ps).1 ≡ work w
  pub poll-active : (w : W) (ps : List PollableId) → active (host.poll w ps).1 ≡ active w
  pub exit-work : (w : W) (p : PollableId) → work (host.exit w p) ≡ work w
  pub exit-active : (w : W) (p : PollableId) → active (host.exit w p) ≡ active w
  pub are_waiting : W → List WakerId → Bool
  pub run-waiting :
      (w : W) (h : HandleId) (ks : List WakerId)
      → are_waiting w ks ≡ true
      → are_waiting (host.run w h).1 (ks ++ wakers_of (registered (host.run w h).0)) ≡ true
  pub poll-waiting :
      (w : W) (ps : List PollableId) (ks : List WakerId)
      → are_waiting w ks ≡ true
      → are_waiting (host.poll w ps).1 ks ≡ true
  pub exit-waiting :
      (w : W) (p : PollableId) (ks : List WakerId)
      → are_waiting w ks ≡ true
      → are_waiting (host.exit w p) ks ≡ true
  pub result-wakes :
      (w : W) (ks : List WakerId) (k : WakerId) (js : List WakerId)
      → are_waiting w (ks ++ k ∷ js) ≡ true
      → (h : HandleId) × ((host.set_result w k).0 ≡ some (h ∷ []))
        × (are_waiting (host.set_result w k).1 (ks ++ js) ≡ true)
  pub result-work : (w : W) (k : WakerId) → work (host.set_result w k).1 ≡ work w
  pub result-active : (w : W) (k : WakerId) → active (host.set_result w k).1 ≡ active w

module _ {W : Type 0} {host : Host W} (laws : TaskLaws host) where
  open laws use {work, active, are_waiting}

  abbrev pub AreWaiting : W → List WakerId → Type 0
  AreWaiting w ks = are_waiting w ks ≡ true

  -- The wakers of the loop are without a result.
  abbrev pub Waits : State W → Type 0
  Waits s = AreWaiting s.world (wakers_of s.loop.wakers)

  -- The steps that are left, with `n` handles that this turn has still to run. A waiter is counted
  -- twice: it is woken, and then its task runs.
  abbrev pub left : ℕ → State W → ℕ
  left n s = work s.world + n + length s.loop.handles + 2 * length s.loop.wakers

  -- No active task is lost.
  abbrev pub AreKnown : ℕ → State W → Type 0
  AreKnown n s = active s.world ≤ n + length s.loop.handles + length s.loop.wakers

  run_handle-eq :
      (s : State W) (h : HandleId)
      → run_handle host s h
        ≡ record { loop = called s.loop (host.run s.world h).0; world = (host.run s.world h).1 }
  unfolding run_handle
  run_handle-eq s h = rw (laws.never_cancelled s.world h) (
      ap (λ l. record { loop = l; world = (host.run s.world h).1 })
        (foldl-perform (host.run s.world h).0 s.loop))

  run_handle-left :
      (n : ℕ) (s : State W) (h : HandleId) → left n (run_handle host s h) < left (suc n) s
  run_handle-left n s h = rw (run_handle-eq s h) (
      omega (
        arith,
        laws.run-work s.world h,
        length-append s.loop.handles (scheduled (host.run s.world h).0),
        length-append s.loop.wakers (registered (host.run s.world h).0),
      ))

  run_handle-AreKnown :
      (n : ℕ) (s : State W) (h : HandleId) → AreKnown (suc n) s → AreKnown n (run_handle host s h)
  run_handle-AreKnown n s h a = rw (run_handle-eq s h) (
      omega (
        arith,
        a,
        laws.run-active s.world h,
        length-append s.loop.handles (scheduled (host.run s.world h).0),
        length-append s.loop.wakers (registered (host.run s.world h).0),
      ))

  run_handle-Waits : (s : State W) (h : HandleId) → Waits s → Waits (run_handle host s h)
  run_handle-Waits s h a = rw (run_handle-eq s h) (
      subst (AreWaiting (host.run s.world h).1)
        (sym (wakers_of-append s.loop.wakers (registered (host.run s.world h).0)))
        (laws.run-waiting s.world h (wakers_of s.loop.wakers) a))

  all_run-Waits :
      (hs : List HandleId) (s : State W) → Waits s → Waits (foldl (run_handle host) s hs)
  all_run-Waits [] s a = a
  all_run-Waits (h ∷ hs) s a = all_run-Waits hs (run_handle host s h) (run_handle-Waits s h a)

  pub run_handles-Waits : (s : State W) → Waits s → Waits (run_handles host s)
  unfolding run_handles
  run_handles-Waits s a =
      all_run-Waits s.loop.handles (record s { loop = record s.loop { handles = [] } }) a

  all_run :
      (hs : List HandleId) (s : State W)
      → AreKnown (length hs) s
      → AreKnown 0 (foldl (run_handle host) s hs)
        × (left 0 (foldl (run_handle host) s hs) + length hs ≤ left (length hs) s)
  all_run [] s a = (a, omega arith)
  all_run (h ∷ hs) s a =
      let (b, l) = all_run hs (run_handle host s h) (run_handle-AreKnown (length hs) s h a) in
      (b, omega (arith, l, run_handle-left (length hs) s h))

  -- The first part of a turn: each handle that it runs is a step less.
  pub run_handles-left :
      (s : State W)
      → AreKnown 0 s
      → AreKnown 0 (run_handles host s)
        × (left 0 (run_handles host s) + length s.loop.handles ≤ left 0 s)
  unfolding run_handles
  run_handles-left s a =
      let (b, l) =
        all_run s.loop.handles (record s { loop = record s.loop { handles = [] } })
          (omega (arith, a)) in
      (b, omega (arith, l))
