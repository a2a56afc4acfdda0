-- ===== src/PollLoop/EventLoop/Wakers.antt =====
-- The pass over the wakers: what is flagged is resolved, the rest is kept in order.
use mathlib.Core.List.{foldl}
use pycage.Prelude.{
  Option-cases, some, none, ◌≡◌, refl, sym, Bool, true, false, List, [], ◌∷◌, ◌++◌, append-nil,
  subst, inl, inr, append_assoc, ap, ◌∙◌,
}
use pycage.Result.{Result, ok, err}
use pycage.PollLoop.EventLoop.{
  Host, State, PollLoop, PollableId, WakerId, HandleId, LoopError, invalid_state, wake_all,
  call_soon,
}
use pycage.PollLoop.EventLoop.Indices.{picked, left}

call_soon-foldl :
    (hs : List HandleId) (l : PollLoop)
    → foldl (λ m h. call_soon h m) l hs ≡ record l { handles = l.handles ++ hs }
unfolding call_soon
call_soon-foldl [] l = simp append-nil
call_soon-foldl (h ∷ hs) l = call_soon-foldl hs (call_soon h l) ∙ simp append_assoc

module _ {W : Type 0} (host : Host W) where
  -- The pollable is given back and its waker gets its result.
  abbrev pub resolve : W → PollableId × WakerId → W
  resolve w (p, k) = (host.set_result (host.exit w p) k).1

  pub wake-ok :
      (bs : List Bool) (p : PollableId) (k : WakerId) (ws kept : List (PollableId × WakerId))
      (s : State W) (hs : List HandleId)
      → (host.set_result (host.exit s.world p) k).0 ≡ some hs
      → wake_all host (true ∷ bs) ((p, k) ∷ ws) kept s
        ≡ wake_all host bs ws kept (record {
          loop = record s.loop { handles = s.loop.handles ++ hs };
          world = resolve s.world (p, k);
        })
  unfolding wake_all
  wake-ok bs p k ws kept s hs e = rw e (
      ap (λ l. wake_all host bs ws kept (record { loop = l; world = resolve s.world (p, k) }))
        (call_soon-foldl hs s.loop))

  wake-err :
      (bs : List Bool) (p : PollableId) (k : WakerId) (ws kept : List (PollableId × WakerId))
      (s : State W)
      → (host.set_result (host.exit s.world p) k).0 ≡ none
      → wake_all host (true ∷ bs) ((p, k) ∷ ws) kept s
        ≡ (err invalid_state, record s { world = resolve s.world (p, k) })
  unfolding wake_all
  wake-err bs p k ws kept s e = rw e

  -- The pass over the wakers, where no `set_result` raises.
  pub record Passes (ws kept out : List (PollableId × WakerId)) (flags : List Bool) (s t : State W)
      : Type 0 where
    pub waiting : out ≡ kept ++ left flags ws
    pub resolved : t.world ≡ foldl resolve s.world (picked flags ws)
    pub woken : List HandleId
    pub queued : t.loop ≡ record s.loop { handles = s.loop.handles ++ woken }

  -- The state after one waiter was woken.
  abbrev after_wake : PollableId → WakerId → List HandleId → State W → State W
  after_wake p k hs s = record {
    loop = record s.loop { handles = s.loop.handles ++ hs };
    world = resolve s.world (p, k);
  }

  Passes-true :
      (bs : List Bool) (p : PollableId) (k : WakerId) (ws kept out : List (PollableId × WakerId))
      (s t : State W) (hs : List HandleId)
      → Passes ws kept out bs (after_wake p k hs s) t
      → Passes ((p, k) ∷ ws) kept out (true ∷ bs) s t
  Passes-true bs p k ws kept out s t hs rest = record {
    waiting = rest.waiting;
    resolved = rest.resolved;
    woken = hs ++ rest.woken;
    queued = rest.queued ∙ simp append_assoc;
  }

  Passes-false :
      (bs : List Bool) (pw : PollableId × WakerId) (ws kept out : List (PollableId × WakerId))
      (s t : State W)
      → Passes ws (kept ++ pw ∷ []) out bs s t
      → Passes (pw ∷ ws) kept out (false ∷ bs) s t
  Passes-false bs pw ws kept out s t rest = record {
    waiting = rest.waiting ∙ append_assoc kept (pw ∷ []) (left bs ws);
    resolved = rest.resolved;
    woken = rest.woken;
    queued = rest.queued;
  }

  Passes-none :
      (flags : List Bool) (ws kept out : List (PollableId × WakerId)) (s : State W)
      → left flags ws ≡ []
      → picked flags ws ≡ []
      → kept ≡ out
      → Passes ws kept out flags s s
  Passes-none flags ws kept out s l p e = record {
    waiting = rw l (sym e ∙ sym (append-nil kept));
    resolved = rw p;
    woken = [];
    queued = simp append-nil;
  }

  -- The result of a pass over the wakers that does not raise.
  pub wake_all-Passes :
      (flags : List Bool) (ws kept : List (PollableId × WakerId)) (s : State W)
      (out : List (PollableId × WakerId))
      → (wake_all host flags ws kept s).0 ≡ ok out
      → Passes ws kept out flags s (wake_all host flags ws kept s).1
  unfolding wake_all
  wake_all-Passes [] ws kept s out e = Passes-none [] ws kept out s refl refl (cc)
  wake_all-Passes (b ∷ bs) [] kept s out e = Passes-none (b ∷ bs) [] kept out s refl refl (cc)
  wake_all-Passes (false ∷ bs) (pw ∷ ws) kept s out e =
      Passes-false bs pw ws kept out s (wake_all host bs ws (kept ++ pw ∷ []) s).1
        (wake_all-Passes bs ws (kept ++ pw ∷ []) s out e)
  wake_all-Passes (true ∷ bs) ((p, k) ∷ ws) kept s out e =
      elim (Option-cases (host.set_result (host.exit s.world p) k).0) [
        | inr (hs, r) ↦
            subst
              (λ (x : Result (List (PollableId × WakerId)) LoopError × State W).
                Passes ((p, k) ∷ ws) kept out (true ∷ bs) s x.1)
              (sym (wake-ok bs p k ws kept s hs r))
              (Passes-true bs p k ws kept out s (wake_all host bs ws kept (after_wake p k hs s)).1
                hs
                (wake_all-Passes bs ws kept (after_wake p k hs s) out (
                  ap (λ (x : Result (List (PollableId × WakerId)) LoopError × State W). x.0)
                    (sym (wake-ok bs p k ws kept s hs r))
                  ∙ e)))
        | inl r ↦ cc (
            ap (λ (y : Result (List (PollableId × WakerId)) LoopError × State W). y.0)
              (wake-err bs p k ws kept s r))
      ]

  -- The pass itself does not touch the list of the waiters.
  pub wakers-wake_all :
      (flags : List Bool) (ws kept : List (PollableId × WakerId)) (s : State W)
      → (wake_all host flags ws kept s).1.loop.wakers ≡ s.loop.wakers
  unfolding wake_all
  wakers-wake_all [] ws kept s = refl
  wakers-wake_all (b ∷ bs) [] kept s = refl
  wakers-wake_all (false ∷ bs) (pw ∷ ws) kept s = wakers-wake_all bs ws (kept ++ pw ∷ []) s
  wakers-wake_all (true ∷ bs) ((p, k) ∷ ws) kept s =
      elim (Option-cases (host.set_result (host.exit s.world p) k).0) [
        | inr (hs, r) ↦
            ap (λ (x : Result (List (PollableId × WakerId)) LoopError × State W). x.1.loop.wakers)
              (wake-ok bs p k ws kept s hs r)
            ∙ wakers-wake_all bs ws kept (after_wake p k hs s)
        | inl r ↦
            ap (λ (x : Result (List (PollableId × WakerId)) LoopError × State W). x.1.loop.wakers)
              (wake-err bs p k ws kept s r)
      ]

  -- The `set_result` of one of the wakers that are flagged raises, once those before it have their
  -- results.
  abbrev pub HasResult : W → List (PollableId × WakerId) → Type 0
  HasResult w flagged =
      (before : List (PollableId × WakerId)) × (p : PollableId) × (k : WakerId) × (after : List
        (PollableId × WakerId))
      × (flagged ≡ before ++ (p, k) ∷ after)
      × ((host.set_result (host.exit (foldl resolve w before) p) k).0 ≡ none)

  HasResult-later :
      (w : W) (x : PollableId × WakerId) (flagged : List (PollableId × WakerId))
      → HasResult (resolve w x) flagged
      → HasResult w (x ∷ flagged)
  HasResult-later w x flagged (before, p, k, after, e, r) =
      (x ∷ before, p, k, after, ap (λ l. x ∷ l) e, r)

  pub wake_all-err :
      (flags : List Bool) (ws kept : List (PollableId × WakerId)) (s : State W) (x : LoopError)
      → (wake_all host flags ws kept s).0 ≡ err x
      → (x ≡ invalid_state) × HasResult s.world (picked flags ws)
  unfolding wake_all
  wake_all-err [] ws kept s x e = cc
  wake_all-err (b ∷ bs) [] kept s x e = cc
  wake_all-err (false ∷ bs) (pw ∷ ws) kept s x e = wake_all-err bs ws (kept ++ pw ∷ []) s x e
  wake_all-err (true ∷ bs) ((p, k) ∷ ws) kept s x e =
      elim (Option-cases (host.set_result (host.exit s.world p) k).0) [
        | inr (hs, r) ↦
            let (same, later) = wake_all-err bs ws kept (after_wake p k hs s) x (
              ap (λ (y : Result (List (PollableId × WakerId)) LoopError × State W). y.0)
                (sym (wake-ok bs p k ws kept s hs r))
              ∙ e) in
            (same, HasResult-later s.world (p, k) (picked bs ws) later)
        | inl r ↦ (
          cc (
              ap (λ (y : Result (List (PollableId × WakerId)) LoopError × State W). y.0)
                (wake-err bs p k ws kept s r)),
          ([], p, k, picked bs ws, refl, r),
        )
      ]
