-- ===== src/PollLoop/EventLoop/Turn.antt =====
-- A turn of the loop runs what was queued before it, in order, and `run_until_complete` returns
-- only when its future is done.
use mathlib.Core.List.{foldl, foldl-append}
use pycage.Prelude.{
  ℕ, ◌<◌, ◌≡◌, sym, Bool, true, false, not, ◌&&◌, refl, ◌⊎◌, Option, some, List, [], ◌∷◌, ◌++◌,
  if◌then◌else◌, arith, append-nil, inl, inr, Bool-cases, append_assoc, ap, ◌∙◌,
}
use pycage.Result.{Result, ok, err, Result-cases}
use pycage.Loop.{Returns, Round, while_total}
use pycage.PollLoop.EventLoop.{
  Host, State, PollLoop, PollableId, WakerId, HandleId, ExceptionId, LoopError, recorded,
  invalid_state, Call, soon, waits, stops, fails, perform, run_handle, run_handles, turn, turn_if,
  ensure_future, started, run_until_complete, poll_wakers,
}
use pycage.PollLoop.EventLoop.Polling.{poll_wakers-kind}

-- What a list of calls asks for.
abbrev pub scheduled : List Call → List HandleId
scheduled [] = []
scheduled (soon h ∷ cs) = h ∷ scheduled cs
scheduled (_ ∷ cs) = scheduled cs

abbrev pub registered : List Call → List (PollableId × WakerId)
registered [] = []
registered (waits p k ∷ cs) = (p, k) ∷ registered cs
registered (_ ∷ cs) = registered cs

abbrev pub keeps_running : Bool → List Call → Bool
keeps_running b [] = b
keeps_running b (stops ∷ cs) = keeps_running false cs
keeps_running b (_ ∷ cs) = keeps_running b cs

abbrev pub last_failure : Option ExceptionId → List Call → Option ExceptionId
last_failure e [] = e
last_failure e (fails x ∷ cs) = last_failure x cs
last_failure e (_ ∷ cs) = last_failure e cs

-- The loop after the calls, field by field.
abbrev pub called : PollLoop → List Call → PollLoop
called l cs = record {
  wakers = l.wakers ++ registered cs;
  running = keeps_running l.running cs;
  handles = l.handles ++ scheduled cs;
  exception = last_failure l.exception cs;
}

pub foldl-perform : (cs : List Call) (l : PollLoop) → foldl perform l cs ≡ called l cs
unfolding perform
foldl-perform [] l = simp append-nil
foldl-perform (soon h ∷ cs) l = foldl-perform cs (perform l (soon h)) ∙ simp append_assoc
foldl-perform (waits p k ∷ cs) l = foldl-perform cs (perform l (waits p k)) ∙ simp append_assoc
foldl-perform (stops ∷ cs) l = foldl-perform cs (perform l stops)
foldl-perform (fails e ∷ cs) l = foldl-perform cs (perform l (fails e))

called-append : (l : PollLoop) (cs ds : List Call) → called (called l cs) ds ≡ called l (cs ++ ds)
called-append l cs ds =
    sym (foldl-perform ds (called l cs))
    ∙ ap (λ m. foldl perform m ds) (sym (foldl-perform cs l))
    ∙ sym (foldl-append perform l cs ds)
    ∙ foldl-perform (cs ++ ds) l

module _ {W : Type 0} (host : Host W) where
  -- The calls that the handles make, each run once and in order, but for those that are cancelled
  -- when their turn comes.
  abbrev pub calls_of : W → List HandleId → List Call × W
  calls_of w [] = ([], w)
  calls_of w (h ∷ hs) =
      let skipped = calls_of w hs in
      let rest = calls_of (host.run w h).1 hs in
      if host.cancelled w h then skipped else ((host.run w h).0 ++ rest.0, rest.1)

  run_handle-foldl :
      (hs : List HandleId) (l : PollLoop) (w : W)
      → foldl (run_handle host) (record { loop = l; world = w }) hs
        ≡ record { loop = called l (calls_of w hs).0; world = (calls_of w hs).1 }
  unfolding run_handle
  run_handle-foldl [] l w = simp append-nil
  run_handle-foldl (h ∷ hs) l w = elim (Bool-cases (host.cancelled w h)) [
    | inl c ↦ rw c (run_handle-foldl hs l w)
    | inr c ↦ rw c (
        ap (λ m. foldl (run_handle host) (record { loop = m; world = (host.run w h).1 }) hs)
          (foldl-perform (host.run w h).0 l)
        ∙ run_handle-foldl hs (called l (host.run w h).0) (host.run w h).1
        ∙ ap (λ m. record { loop = m; world = (calls_of (host.run w h).1 hs).1 })
            (called-append l (host.run w h).0 (calls_of (host.run w h).1 hs).0))
  ]

  -- A turn runs each handle of the queue that is not cancelled, once and in order; then the queue
  -- is what they scheduled, in order, what they registered waits behind the older waiters, the
  -- loop runs on unless one of them stopped it, and the exception is the last that was reported.
  pub run_handles_lem :
      (s : State W)
      → run_handles host s ≡ record {
        loop = called (record s.loop { handles = [] }) (calls_of s.world s.loop.handles).0;
        world = (calls_of s.world s.loop.handles).1;
      }
  unfolding run_handles
  run_handles_lem s = run_handle-foldl s.loop.handles (record s.loop { handles = [] }) s.world

  pub turn-err :
      (s : State W) (e : ExceptionId)
      → (turn host s).0 ≡ err (recorded e)
      → (turn host s).1.loop.exception ≡ some e
  unfolding turn
  turn-err s e h = elim (Result-cases (poll_wakers host (run_handles host s)).0) [
    | inl (u, p) ↦ ground arith
    | inr (x, p) ↦ ground (arith, poll_wakers-kind host (run_handles host s) {e = x} p)
  ]

  -- How `run_until_complete` ends: the future is done, or a turn has raised, or the loop was
  -- stopped before the future was done.
  abbrev pub Ended : (LoopError → State W → Type 0) → Result (Unit {0}) LoopError → State W → Type 0
  Ended Raises (ok _) t = host.done t.world ≡ true
  Ended Raises (err e) t =
      Raises e t ⊎ ((e ≡ invalid_state) × (t.loop.running ≡ false) × (host.done t.world ≡ false))

  -- What the states that can occur owe in a turn before the future is done.
  module _ (Live : State W → Type 0) (turns : State W → ℕ) (Raises : LoopError → State W → Type 0)
      (progress : (s : State W)
        → Live s
        → host.done s.world ≡ false
        → Live (turn host s).1 × (turns (turn host s).1 < turns s))
      (raises : (s : State W) (e : LoopError)
        → Live s
        → (turn host s).0 ≡ err e
        → Raises e (turn host s).1) where
    turn_if_owes :
        (l : Unit {0}) (s : State W)
        → Live s
        → Round
            (λ _ t. Live t)
            (Ended Raises)
            (λ _ t. turns t)
            (turns s)
            (turn_if host l s).0
            (turn_if host l s).1
    unfolding turn_if
    turn_if_owes l s i = elim (Bool-cases (s.loop.running && not (host.done s.world))) [
      | inl on ↦ elim (Result-cases (turn host s).0) [
        | inl (u, t) ↦ ground (arith, progress s i)
        | inr (e, t) ↦ rw (on, t) (inl (raises s e i t))
      ]
      | inr off ↦ elim (Bool-cases (host.done s.world)) [
        | inl d ↦ rw (off, d) d
        | inr d ↦ rw (off, d) (inr (refl, ground arith, d))
      ]
    ]

    pub turns-Ended :
        (fuel : ℕ) (first : Option HandleId) (s : State W)
        → Live (started (ensure_future host first s))
        → turns (started (ensure_future host first s)) < fuel
        → Returns (Ended Raises) (run_until_complete host fuel first s)
    unfolding run_until_complete
    turns-Ended fuel first s live enough =
        while_total (λ _ t. Live t) (Ended Raises) (λ _ t. turns t) (turn_if host) turn_if_owes fuel
          tt (started (ensure_future host first s)) enough live
