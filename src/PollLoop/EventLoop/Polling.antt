-- ===== src/PollLoop/EventLoop/Polling.antt =====
-- One poll wakes exactly the waiters whose index the host returned, and keeps the others in order.
use mathlib.Core.List.{foldl}
use pycage.Prelude.{
  ℕ, ◌≤◌, ◌<◌, ◌≡◌, ◌≢◌, refl, sym, Bool, true, false, ◌||◌, List, [], ◌∷◌, ◌++◌, map, length, set,
  replicate, length-replicate, arith, subst, ◌⊎◌, inl, inr, ap, ◌∙◌, ltb, Bool-cases,
}
use pycage.Result.{Result, ok, err, Result-cases}
use pycage.Exec.{lift, modify, ◌>>=◌, >>=-ok}
use pycage.PollLoop.EventLoop.{
  Host, State, PollLoop, PollableId, WakerId, HandleId, LoopError, index_error, invalid_state, mark,
  wake_all, poll_wakers, poll_list,
}
use pycage.PollLoop.EventLoop.Indices.{
  contains, chosen, others, flag_at, flag_at-mark, flag_at-replicate, length-set, picked, left,
  picked-chosen,
}
use pycage.PollLoop.EventLoop.Wakers.{
  Passes, wake_all-Passes, resolve, HasResult, wakers-wake_all, wake_all-err,
}

module _ {W : Type 0} (host : Host W) where
  -- What one poll has done to the waiters `ws`, given the indices that the host returned and its
  -- state then.
  pub record Polled (is : List ℕ) (world : W) (ws : List (PollableId × WakerId)) (s t : State W)
      : Type 0 where
    pub waiting : t.loop.wakers ≡ others is 0 ws
    pub resolved : t.world ≡ foldl (resolve host) world (chosen is 0 ws)
    pub woken : List HandleId
    pub queued : t.loop.handles ≡ s.loop.handles ++ woken
    pub running : t.loop.running ≡ s.loop.running
    pub exception : t.loop.exception ≡ s.loop.exception

  abbrev indices : State W → List (PollableId × WakerId) → List ℕ
  indices s ws = (host.poll s.world (map (λ x. x.0) ws)).0

  abbrev polled : State W → List (PollableId × WakerId) → W
  polled s ws = (host.poll s.world (map (λ x. x.0) ws)).1

  Passes-Polled :
      (is : List ℕ) (flags : List Bool) (ws out : List (PollableId × WakerId)) (s t : State W)
      (world : W)
      → mark is (replicate (length ws) false) ≡ ok flags
      → Passes host ws [] out flags (record s { world = world }) t
      → Polled is world ws s (record t { loop = record t.loop { wakers = out } })
  Passes-Polled is flags ws out s t world m h = record {
    waiting = h.waiting ∙ parts.1;
    resolved = h.resolved ∙ ap (foldl (resolve host) world) parts.0;
    woken = h.woken;
    queued = ap (λ (l : PollLoop). l.handles) h.queued;
    running = ap (λ (l : PollLoop). l.running) h.queued;
    exception = ap (λ (l : PollLoop). l.exception) h.queued;
  }
    where
      marked :
          (length flags ≡ length (replicate (length ws) false))
          × ((j : ℕ) → flag_at flags j ≡ (contains j is || flag_at (replicate (length ws) false) j))
      marked = flag_at-mark is (replicate (length ws) false) flags m

      parts : (picked flags ws ≡ chosen is 0 ws) × (left flags ws ≡ others is 0 ws)
      parts =
          picked-chosen is 0 flags ws (marked.0 ∙ length-replicate (length ws) false)
            (λ j. marked.1 j ∙ ground (arith, flag_at-replicate (length ws) j))

  poll_list-Polled :
      (pw : PollableId × WakerId) (ws : List (PollableId × WakerId)) (s : State W)
      → (poll_list host (pw ∷ ws) s).0 ≡ ok tt
      → Polled (indices s (pw ∷ ws)) (polled s (pw ∷ ws)) (pw ∷ ws) s (poll_list host (pw ∷ ws) s).1
  unfolding poll_list
  poll_list-Polled pw ws s e =
      let s' : State W = record s { world = polled s (pw ∷ ws) } in
      let keep = λ (kept : List (PollableId × WakerId)).
        modify {S = State W} {E = LoopError}
          (λ t. record t { loop = record t.loop { wakers = kept } }) in
      let rest = λ (flags : List Bool). wake_all host flags (pw ∷ ws) [] >>= keep in
      let (flags, m, at_flags) =
        >>=-ok (lift (mark (indices s (pw ∷ ws)) (replicate (length (pw ∷ ws)) false))) rest s' e in
      let (out, k, at_out) =
        >>=-ok (wake_all host flags (pw ∷ ws) []) keep s'
          (ap (λ (x : Result (Unit {0}) LoopError × State W). x.0) (sym at_flags) ∙ e) in
      subst
        (λ (x : Result (Unit {0}) LoopError × State W).
          Polled (indices s (pw ∷ ws)) (polled s (pw ∷ ws)) (pw ∷ ws) s x.1)
        (sym (at_flags ∙ at_out))
        (Passes-Polled (indices s (pw ∷ ws)) flags (pw ∷ ws) out s
          (wake_all host flags (pw ∷ ws) [] s').1 (polled s (pw ∷ ws)) m
          (wake_all-Passes host flags (pw ∷ ws) [] s' out k))

  poll_list-nonempty :
      (ws : List (PollableId × WakerId)) (s : State W)
      → ws ≢ []
      → (poll_list host ws s).0 ≡ ok tt
      → Polled (indices s ws) (polled s ws) ws s (poll_list host ws s).1
  poll_list-nonempty [] s n e = absurd (n refl)
  poll_list-nonempty (pw ∷ ws) s n e = poll_list-Polled pw ws s e

  -- Where there are waiters and a poll does not raise, exactly the waiters at the indices that the
  -- host returned have been resolved, in order; the others wait on in their order; the handles
  -- that were queued stay in front of what the resolved wakers queue; and the rest of the loop is
  -- as it was.
  pub poll_wakers-Polled :
      (s : State W)
      → s.loop.wakers ≢ []
      → (poll_wakers host s).0 ≡ ok tt
      → Polled
          (indices s s.loop.wakers)
          (polled s s.loop.wakers)
          s.loop.wakers
          s
          (poll_wakers host s).1
  unfolding poll_wakers
  poll_wakers-Polled s n e = poll_list-nonempty s.loop.wakers s n e

  mark-err :
      (is : List ℕ) (bs : List Bool) (x : LoopError)
      → mark is bs ≡ err x
      → (x ≡ index_error) × ((i : ℕ) × (contains i is ≡ true) × (length bs ≤ i))
  unfolding mark
  mark-err [] bs x e = cc
  mark-err (i ∷ is) bs x e = elim (Bool-cases (ltb i (length bs))) [
    | inl inside ↦
        let (same, (j, among, outside)) = mark-err is (set bs i true) x (ground arith) in
        (same, (j, ground (arith, among), ground (arith, outside, length-set bs i)))
    | inr outside ↦ (ground arith, (i, ground arith, ground arith))
  ]

  mark-inside :
      (is : List ℕ) (bs flags : List Bool) (j : ℕ)
      → mark is bs ≡ ok flags
      → contains j is ≡ true
      → j < length bs
  unfolding mark
  mark-inside [] bs flags j e among = cc
  mark-inside (i ∷ is) bs flags j e among =
      ground (arith, mark-inside is (set bs i true) flags j, length-set bs i)

  -- Why a poll raises: the host has returned an index out of range; or all are in range, and the
  -- waker at one of them has its result already, once those at the indices before it, in the order
  -- of the waiters, have theirs.
  pub data Cause (is : List ℕ) (world : W) (ws : List (PollableId × WakerId))
      : LoopError → Type 0 where
    out_of_range : (i : ℕ) → contains i is ≡ true → length ws ≤ i → Cause is world ws index_error
    has_result :
        ((i : ℕ) → contains i is ≡ true → i < length ws)
        → HasResult host world (chosen is 0 ws)
        → Cause is world ws invalid_state

  -- What a poll of the waiters `ws` raises, and that it leaves the list of the waiters alone then.
  abbrev pub Fails : List (PollableId × WakerId) → LoopError → State W → State W → Type 0
  Fails ws x s t = Cause (indices s ws) (polled s ws) ws x × (t.loop.wakers ≡ s.loop.wakers)

  wake_all-Cause :
      (is : List ℕ) (flags : List Bool) (ws : List (PollableId × WakerId)) (s : State W)
      {x : LoopError}
      → mark is (replicate (length ws) false) ≡ ok flags
      → (wake_all host flags ws [] s).0 ≡ err x
      → Cause is s.world ws x
  wake_all-Cause is flags ws s {x} m e =
      let (same, r) = wake_all-err host flags ws [] s x e in
      let marked = flag_at-mark is (replicate (length ws) false) flags m in
      let (parts, _) =
        picked-chosen is 0 flags ws (marked.0 ∙ length-replicate (length ws) false)
          (λ j. marked.1 j ∙ ground (arith, flag_at-replicate (length ws) j)) in
      subst (Cause is s.world ws) (sym same) (
        has_result
          (λ i among. ground (
            arith,
            mark-inside is (replicate (length ws) false) flags i m among,
            length-replicate (length ws) false,
          ))
          (subst (HasResult host s.world) parts r))

  mark-Cause :
      (is : List ℕ) (world : W) (ws : List (PollableId × WakerId)) {x : LoopError}
      → mark is (replicate (length ws) false) ≡ err x
      → Cause is world ws x
  mark-Cause is world ws {x} m =
      let (same, (i, among, outside)) = mark-err is (replicate (length ws) false) x m in
      subst (Cause is world ws) (sym same)
        (out_of_range i among (ground (arith, outside, length-replicate (length ws) false)))

  poll_list-err :
      (ws : List (PollableId × WakerId)) (s : State W) {x : LoopError}
      → (poll_list host ws s).0 ≡ err x
      → Fails ws x s (poll_list host ws s).1
  unfolding poll_list
  poll_list-err [] s e = cc
  poll_list-err (pw ∷ ws) s {x} e =
      elim (Result-cases (mark (indices s (pw ∷ ws)) (replicate (length (pw ∷ ws)) false))) [
        | inl (flags, m) ↦ ground (
          arith,
          wakers-wake_all host flags (pw ∷ ws) [] (record s { world = polled s (pw ∷ ws) }),
          wake_all-Cause (indices s (pw ∷ ws)) flags (pw ∷ ws)
              (record s { world = polled s (pw ∷ ws) }) {x = x} m,
        )
        | inr (y, m) ↦
            ground
              (arith, mark-Cause (indices s (pw ∷ ws)) (polled s (pw ∷ ws)) (pw ∷ ws) {x = y} m)
      ]

  -- A poll raises only for an index of the host that is out of range, or, where none is, for the
  -- waker at one of the indices that has its result already when its turn comes, in the order of
  -- the waiters. It leaves every waiter in the list then, those that it has resolved before too.
  pub poll_wakers-err :
      (s : State W) {e : LoopError}
      → (poll_wakers host s).0 ≡ err e
      → Fails s.loop.wakers e s (poll_wakers host s).1
  unfolding poll_wakers
  poll_wakers-err s e = poll_list-err s.loop.wakers s e

  Cause-kind :
      {is : List ℕ} {world : W} {ws : List (PollableId × WakerId)} {e : LoopError}
      → Cause is world ws e
      → (e ≡ index_error) ⊎ (e ≡ invalid_state)
  Cause-kind (out_of_range i among outside) = inl refl
  Cause-kind (has_result inside has) = inr refl

  pub poll_wakers-kind :
      (s : State W) {e : LoopError}
      → (poll_wakers host s).0 ≡ err e
      → (e ≡ index_error) ⊎ (e ≡ invalid_state)
  poll_wakers-kind s {e} r = Cause-kind (poll_wakers-err s {e = e} r).0
