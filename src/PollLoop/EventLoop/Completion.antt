-- ===== src/PollLoop/EventLoop/Completion.antt =====
-- `run_until_complete` over tasks that end, on a host whose polls come back.
use mathlib.Core.List.{foldl}
use pycage.Prelude.{
  Bool-cases, ◌==◌, ℕ, ◌<◌, ◌≡◌, ◌≢◌, refl, false, Option, some, List, [], ◌∷◌, length, arith, ap,
  ◌∙◌, sym, inl, inr, Option-cases,
}
use pycage.Result.{ok, err}
use pycage.Loop.{Returns}
use pycage.PollLoop.EventLoop.{
  Host, State, HandleId, ExceptionId, LoopError, recorded, run_handle, run_handles, poll_wakers,
  turn, ensure_future, run_until_complete,
}
use pycage.PollLoop.EventLoop.Turn.{Ended, turns-Ended}
use pycage.PollLoop.EventLoop.Tasks.{
  TaskLaws, left, AreKnown, Waits, run_handles-left, run_handles-Waits,
}
use pycage.PollLoop.EventLoop.Waking.{Polls, poll_list-Polls}

module _ {W : Type 0} {host : Host W} (laws : TaskLaws host) where
  -- What is raised is the exception that the loop has recorded.
  abbrev pub Raises : LoopError → State W → Type 0
  Raises e t = (x : ExceptionId) × (e ≡ recorded x) × (t.loop.exception ≡ some x)

  -- A turn ends with a poll that raises nothing, and raises what is recorded then.
  turn-lem :
      (s t : State W)
      → poll_wakers host (run_handles host s) ≡ (ok tt, t)
      → ((turn host s).1 ≡ t) × ((e : LoopError) → (turn host s).0 ≡ err e → Raises e t)
  unfolding turn
  turn-lem s t p = elim (Option-cases t.loop.exception) [
    | inl n ↦ rw (p, n) (refl, λ e h. absurd (cc h))
    | inr (x, n) ↦ rw (p, n) (refl, λ e h. (x, cc h, refl))
  ]

  none_run : (hs : List HandleId) (t : State W) → length hs ≡ 0 → foldl (run_handle host) t hs ≡ t
  none_run [] t e = refl
  none_run (h ∷ hs) t e = absurd (omega arith)

  module _ (s : State W) (a : AreKnown laws 0 s) (v : Waits laws s) where
    abbrev ran : State W
    ran = run_handles host s

    polls : Polls laws ran.loop.wakers ran
    polls =
        poll_list-Polls laws ran.loop.wakers ran refl (run_handles-left laws s a).0
          (run_handles-Waits laws s v)

    turned :
        ((turn host s).1 ≡ polls.state)
        × ((e : LoopError) → (turn host s).0 ≡ err e → Raises e polls.state)
    turned = turn-lem s polls.state (unfold poll_wakers in polls.polled)

    -- Where no handle is queued, an active task waits for a pollable.
    wakers_left : host.done s.world ≡ false → length s.loop.handles ≡ 0 → ran.loop.wakers ≢ []
    unfolding run_handles
    wakers_left d n e =
        let same : s.loop.wakers ≡ [] =
          ap (λ (t : State W). t.loop.wakers)
            (sym (none_run s.loop.handles (record s { loop = record s.loop { handles = [] } }) n))
          ∙ e in
        absurd (omega (arith, a, n, laws.done-active s.world d, ap length same))

    turn-left :
        host.done s.world ≡ false
        → (AreKnown laws 0 (turn host s).1 × Waits laws (turn host s).1)
          × (left laws 0 (turn host s).1 < left laws 0 s)
    turn-left d = rw (turned.0) ((polls.known, polls.waiting), fewer)
      where
        fewer : left laws 0 polls.state < left laws 0 s
        fewer = elim (Bool-cases (length s.loop.handles == 0)) [
          | inl e ↦
              omega
                (arith, (run_handles-left laws s a).1, polls.fewer (wakers_left d (ground arith)))
          | inr e ↦
              let some_ran : length s.loop.handles ≢ 0 = ground arith in
              omega (arith, (run_handles-left laws s a).1, polls.no_more, some_ran)
        ]

    turn-Raises : (e : LoopError) → (turn host s).0 ≡ err e → Raises e (turn host s).1
    turn-Raises e h = rw (turned.0) (turned.1 e h)

  -- Where the tasks and the host keep their laws (each step leaves less work, a poll returns indices of
  -- what it is given, at least one, and a new future is without a result until it is given one), the
  -- loop knows the active tasks once the future has its task, and the wakers in its list are then
  -- different futures without a result, `run_until_complete` ends with more fuel than the steps that are left, with
  -- two for each waiter: it returns with the future done, or raises the exception that the loop has
  -- recorded, or the loop was stopped before the future was done. It raises neither
  -- for an index nor for a waker that has its result.
  pub run_until_complete-Ended :
      (fuel : ℕ) (first : Option HandleId) (s : State W)
      → AreKnown laws 0 (ensure_future host first s)
      → Waits laws (ensure_future host first s)
      → left laws 0 (ensure_future host first s) < fuel
      → Returns (Ended host Raises) (run_until_complete host fuel first s)
  run_until_complete-Ended fuel first s a v =
      turns-Ended host (λ s. AreKnown laws 0 s × Waits laws s) (left laws 0) Raises
        (λ s a d. turn-left s a.0 a.1 d) (λ s e a h. turn-Raises s a.0 a.1 e h) fuel first s (a, v)
