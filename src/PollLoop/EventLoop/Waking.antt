-- ===== src/PollLoop/EventLoop/Waking.antt =====
-- A poll of the loop whose tasks keep their laws: it raises nothing, and wakes a task.
use pycage.Prelude.{
  ℕ, zero, suc, ◌+◌, ◌<◌, ◌≤◌, ◌≡◌, ◌≢◌, refl, Bool, true, false, List, [], ◌∷◌, ◌++◌, map, length,
  set, replicate, length-replicate, arith, length-append, ap, ◌∙◌, subst, sym, append-nil,
  append_assoc,
}
use pycage.Result.{ok}
use pycage.PollLoop.EventLoop.{Host, State, PollableId, WakerId, mark, wake_all, poll_list}
use pycage.PollLoop.EventLoop.Indices.{length-set}
use pycage.PollLoop.EventLoop.Wakers.{wake-ok, resolve}
use pycage.PollLoop.EventLoop.Tasks.{
  AreInside, TaskLaws, left, AreKnown, AreWaiting, Waits, wakers_of, wakers_of-append,
}

-- How many of the flags are set.
abbrev trues : List Bool → ℕ
trues [] = 0
trues (true ∷ bs) = suc (trues bs)
trues (false ∷ bs) = trues bs

trues-set :
    (bs : List Bool) (i : ℕ)
    → (trues bs ≤ trues (set bs i true)) × (i < length bs → 0 < trues (set bs i true))
trues-set [] i = (omega arith, λ h. absurd (omega arith))
trues-set (true ∷ bs) zero = (omega arith, λ h. omega arith)
trues-set (false ∷ bs) zero = (omega arith, λ h. omega arith)
trues-set (true ∷ bs) (suc i) = (omega (arith, (trues-set bs i).0), λ h. omega arith)
trues-set (false ∷ bs) (suc i) =
    (omega (arith, (trues-set bs i).0), λ h. (trues-set bs i).1 (omega arith))

-- Indices that are inside set flags, and raise nothing.
record Marks (is : List ℕ) (bs : List Bool) : Type 0 where
  flags : List Bool
  marked : mark is bs ≡ ok flags
  same_length : length flags ≡ length bs
  grown : trues bs ≤ trues flags
  some_set : is ≢ [] → 0 < trues flags

mark-Marks : (is : List ℕ) (bs : List Bool) → AreInside (length bs) is → Marks is bs
unfolding mark
mark-Marks [] bs h = record {
  flags = bs;
  marked = refl;
  same_length = refl;
  grown = omega arith;
  some_set = λ n. absurd (n refl);
}
mark-Marks (i ∷ is) bs h =
    let rest =
      mark-Marks is (set bs i true) (subst (λ n. AreInside n is) (sym (length-set bs i)) h.1) in
    record {
      flags = rest.flags;
      marked = ground (arith, rest.marked, h.0);
      same_length = rest.same_length ∙ length-set bs i;
      grown = omega (arith, rest.grown, (trues-set bs i).0);
      some_set = λ n. omega (arith, rest.grown, (trues-set bs i).1 h.0);
    }

module _ {W : Type 0} {host : Host W} (laws : TaskLaws host) where
  open laws use {work, active}

  -- The pass over the wakers raises nothing: each that is flagged queues a handle, and the others
  -- are kept.
  record Wakes (flags : List Bool) (ws kept : List (PollableId × WakerId)) (s : State W)
      : Type 0 where
    out : List (PollableId × WakerId)
    state : State W
    woke : wake_all host flags ws kept s ≡ (ok out, state)
    kept_length : length out + trues flags ≡ length kept + length ws
    handles_length : length state.loop.handles ≡ length s.loop.handles + trues flags
    same_work : work state.world ≡ work s.world
    same_active : active state.world ≡ active s.world
    waiting : AreWaiting laws state.world (wakers_of out)

  wake_all-Wakes :
      (flags : List Bool) (ws kept : List (PollableId × WakerId)) (s : State W)
      → length flags ≡ length ws
      → AreWaiting laws s.world (wakers_of (kept ++ ws))
      → Wakes flags ws kept s
  unfolding wake_all
  wake_all-Wakes [] [] kept s e a = record {
    out = kept;
    state = s;
    woke = refl;
    kept_length = omega arith;
    handles_length = omega arith;
    same_work = refl;
    same_active = refl;
    waiting = subst (λ l. AreWaiting laws s.world (wakers_of l)) (append-nil kept) a;
  }
  wake_all-Wakes [] (pw ∷ ws) kept s e a = absurd (omega arith)
  wake_all-Wakes (b ∷ bs) [] kept s e a = absurd (omega arith)
  wake_all-Wakes (false ∷ bs) (pw ∷ ws) kept s e a =
      let rest = wake_all-Wakes bs ws (kept ++ pw ∷ []) s (omega arith) (
        subst (λ l. AreWaiting laws s.world (wakers_of l)) (sym (append_assoc kept (pw ∷ []) ws))
          a) in
      record {
        out = rest.out;
        state = rest.state;
        woke = rest.woke;
        kept_length = omega (arith, rest.kept_length, length-append kept (pw ∷ []));
        handles_length = rest.handles_length;
        same_work = rest.same_work;
        same_active = rest.same_active;
        waiting = rest.waiting;
      }
  wake_all-Wakes (true ∷ bs) ((p, k) ∷ ws) kept s e a =
      let before = subst (AreWaiting laws s.world) (wakers_of-append kept ((p, k) ∷ ws)) a in
      let (h, wakes, later) =
        laws.result-wakes (host.exit s.world p) (wakers_of kept) k (wakers_of ws)
          (laws.exit-waiting s.world p (wakers_of kept ++ k ∷ wakers_of ws) before) in
      let woken : State W = record {
        loop = record s.loop { handles = s.loop.handles ++ h ∷ [] };
        world = resolve host s.world (p, k);
      } in
      let rest =
        wake_all-Wakes bs ws kept woken (omega arith)
          (subst (AreWaiting laws woken.world) (sym (wakers_of-append kept ws)) later) in
      record {
        out = rest.out;
        state = rest.state;
        woke = wake-ok host bs p k ws kept s (h ∷ []) wakes ∙ rest.woke;
        kept_length = omega (arith, rest.kept_length);
        handles_length = omega (arith, rest.handles_length, length-append s.loop.handles (h ∷ []));
        same_work =
            rest.same_work ∙ laws.result-work (host.exit s.world p) k ∙ laws.exit-work s.world p;
        same_active =
            rest.same_active
            ∙ laws.result-active (host.exit s.world p) k
            ∙ laws.exit-active s.world p;
        waiting = rest.waiting;
      }

  -- A poll for the waiters `ws` of the loop, which raises nothing; where there are any, it leaves a
  -- step less.
  pub record Polls (ws : List (PollableId × WakerId)) (s : State W) : Type 0 where
    pub state : State W
    pub polled : poll_list host ws s ≡ (ok tt, state)
    pub known : AreKnown laws 0 state
    pub waiting : Waits laws state
    pub no_more : left laws 0 state ≤ left laws 0 s
    pub fewer : ws ≢ [] → left laws 0 state < left laws 0 s

  length-pollables : (ws : List (PollableId × WakerId)) → length (map (λ x. x.0) ws) ≡ length ws
  length-pollables [] = refl
  length-pollables (pw ∷ ws) = ap suc (length-pollables ws)

  abbrev indices_of : List (PollableId × WakerId) → State W → List ℕ
  indices_of ws s = (host.poll s.world (map (λ x. x.0) ws)).0

  abbrev after_poll : List (PollableId × WakerId) → State W → State W
  after_poll ws s = record s { world = (host.poll s.world (map (λ x. x.0) ws)).1 }

  marked-Polls :
      (pw : PollableId × WakerId) (ws : List (PollableId × WakerId)) (s : State W)
      → s.loop.wakers ≡ pw ∷ ws
      → AreKnown laws 0 s
      → (m : Marks (indices_of (pw ∷ ws) s) (replicate (length (pw ∷ ws)) false))
      → 0 < trues m.flags
      → Wakes m.flags (pw ∷ ws) [] (after_poll (pw ∷ ws) s)
      → Polls (pw ∷ ws) s
  unfolding poll_list
  marked-Polls pw ws s e a m one k = record {
    state = record k.state { loop = record k.state.loop { wakers = k.out } };
    polled = rw (m.marked, k.woke) refl;
    waiting = k.waiting;
    known = omega (
      arith,
      a,
      k.kept_length,
      k.handles_length,
      k.same_active,
      laws.poll-active s.world (map (λ x. x.0) (pw ∷ ws)),
      ap length e,
    );
    no_more = omega (
      arith,
      k.kept_length,
      k.handles_length,
      k.same_work,
      laws.poll-work s.world (map (λ x. x.0) (pw ∷ ws)),
      ap length e,
    );
    fewer = λ n. omega (
      arith,
      one,
      k.kept_length,
      k.handles_length,
      k.same_work,
      laws.poll-work s.world (map (λ x. x.0) (pw ∷ ws)),
      ap length e,
    );
  }

  pub poll_list-Polls :
      (ws : List (PollableId × WakerId)) (s : State W)
      → s.loop.wakers ≡ ws
      → AreKnown laws 0 s
      → Waits laws s
      → Polls ws s
  unfolding poll_list
  poll_list-Polls [] s e a v = record {
    state = s;
    polled = refl;
    known = a;
    waiting = v;
    no_more = omega arith;
    fewer = λ n. absurd (n refl);
  }
  poll_list-Polls (pw ∷ ws) s e a v =
      let same : length (pw ∷ ws) ≡ length (replicate (length (pw ∷ ws)) false) =
        sym (length-replicate (length (pw ∷ ws)) false) in
      let marks = mark-Marks (indices_of (pw ∷ ws) s) (replicate (length (pw ∷ ws)) false) (
        subst (λ n. AreInside n (indices_of (pw ∷ ws) s)) (length-pollables (pw ∷ ws) ∙ same)
          (laws.poll-inside s.world (map (λ x. x.0) (pw ∷ ws)))) in
      marked-Polls pw ws s e a marks
        (marks.some_set (laws.poll-some s.world (map (λ x. x.0) (pw ∷ ws)) (λ q. absurd (cc q))))
        (wake_all-Wakes marks.flags (pw ∷ ws) [] (after_poll (pw ∷ ws) s)
          (marks.same_length ∙ sym same)
          (laws.poll-waiting s.world (map (λ x. x.0) (pw ∷ ws)) (wakers_of (pw ∷ ws))
            (subst (λ l. AreWaiting laws s.world (wakers_of l)) e v)))
