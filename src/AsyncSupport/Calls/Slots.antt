-- ===== src/AsyncSupport/Calls/Slots.antt =====
-- The context slots of the calls in flight: what the calls still owe, summed over them.
use pycage.Prelude.{
  ℕ, zero, suc, ◌+◌, ◌<◌, ◌≤◌, ◌≡◌, ◌≢◌, refl, Option, arith, inl, inr, ◌==◌, Bool-cases,
}
use pycage.AsyncSupport.{FutureState}
use pycage.AsyncSupport.Calls.{update}

module _ (weight : Option FutureState → ℕ) where
  -- The weights of the slots of the first `n` calls.
  abbrev pub sum : ℕ → (ℕ → Option FutureState) → ℕ
  sum zero f = 0
  sum (suc n) f = sum n f + weight (f n)

  pub sum-update_above :
      (n i : ℕ) (o : Option FutureState) (f : ℕ → Option FutureState)
      → n ≤ i
      → sum n (update i o f) ≡ sum n f
  unfolding update
  sum-update_above zero i o f h = refl
  sum-update_above (suc n) i o f h = ground (arith, sum-update_above n i o f)

  pub sum-update :
      (n i : ℕ) (o : Option FutureState) (f : ℕ → Option FutureState)
      → i < n
      → sum n (update i o f) + weight (f i) ≡ sum n f + weight o
  unfolding update
  sum-update zero i o f h = absurd (omega arith)
  sum-update (suc n) i o f h = elim (Bool-cases (n == i)) [
    | inl e ↦
        let same : n ≡ i = ground arith in
        rw (e, same, sum-update_above i i o f (omega arith)) (omega arith)
    | inr e ↦ rw e (omega (arith, sum-update n i o f (ground arith)))
  ]

pub update-same : (i : ℕ) (o : Option FutureState) (f : ℕ → Option FutureState) → update i o f i ≡ o
unfolding update
update-same i o f = ground arith

pub update-other :
    (i j : ℕ) (o : Option FutureState) (f : ℕ → Option FutureState) → j ≢ i → update i o f j ≡ f j
unfolding update
update-other i j o f n = ground arith
