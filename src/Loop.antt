-- ===== src/Loop.antt =====
-- `while True:` around a body that may go round again, return, or raise, with fuel, and the rule of
-- total correctness that the loops of the program share.
use pycage.Prelude.{ℕ, zero, suc, ◌<◌, Option, none, some, arith}
use pycage.Result.{Result, ok, err}
use pycage.Exec.{Exec}

pub data Next (L A : Type 0) : Type 0 where
  again : L → Next L A
  return : A → Next L A

module _ {S E L A : Type 0} where
  -- `none` means that the fuel ran out.
  unfoldable pub while : ℕ → (L → Exec S E (Next L A)) → L → S → Option (Result A E × S)
  while zero body l s = none
  while (suc fuel) body l s =
      let (r, s') = body l s in
      elim r [
        | ok (again l') ↦ while fuel body l' s'
        | ok (return a) ↦ some (ok a, s')
        | err e ↦ some (err e, s')
      ]

module _ {S E A : Type 0} (Q : Result A E → S → Type 0) where
  -- The loop ended, and its outcome and its final state satisfy `Q`.
  abbrev pub Returns : Option (Result A E × S) → Type 0
  Returns none = ⊥
  Returns (some (r, s)) = Q r s

module _ {S E A : Type 0} (Q R : Result A E → S → Type 0) where
  pub Returns-weaken :
      (m : Option (Result A E × S))
      → ((r : Result A E) (s : S) → Q r s → R r s)
      → Returns Q m
      → Returns R m
  Returns-weaken none f q = q
  Returns-weaken (some (r, s)) f q = f r s q

  pub Returns-and :
      (m : Option (Result A E × S)) → Returns Q m → Returns R m → Returns (λ r s. Q r s × R r s) m
  Returns-and none q r = q
  Returns-and (some (x, s)) q r = (q, r)

module _ {S E L A : Type 0} (I : L → S → Type 0) (Q : Result A E → S → Type 0)
    (measure : L → S → ℕ) where
  -- What one round owes: the invariant at a smaller measure, or the postcondition.
  abbrev pub Round : ℕ → Result (Next L A) E → S → Type 0
  Round bound (ok (again l)) s = I l s × (measure l s < bound)
  Round bound (ok (return a)) s = Q (ok a) s
  Round bound (err e) s = Q (err e) s

  while-next :
      (fuel bound : ℕ) (body : L → Exec S E (Next L A)) (l : L) (s : S)
      → bound < suc fuel
      → Round bound (body l s).0 (body l s).1
      → ((l' : L) (s' : S) → measure l' s' < fuel → I l' s' → Returns Q (while fuel body l' s'))
      → Returns Q (while (suc fuel) body l s)
  unfolding while
  while-next fuel bound body l s b round rest = go (body l s).0 (body l s).1 round
    where
      go :
          (r : Result (Next L A) E) (s' : S)
          → Round bound r s'
          → Returns Q (elim r [
            | ok (again l') ↦ while fuel body l' s'
            | ok (return a) ↦ some (ok a, s')
            | err e ↦ some (err e, s')
          ])
      go (ok (again l')) s' (i, m) = rest l' s' (omega arith) i
      go (ok (return a)) s' q = q
      go (err e) s' q = q

  -- With more fuel than the measure, the loop ends and its outcome satisfies `Q`.
  pub while_total :
      (body : L → Exec S E (Next L A))
      → ((l : L) (s : S) → I l s → Round (measure l s) (body l s).0 (body l s).1)
      → (fuel : ℕ) (l : L) (s : S) → measure l s < fuel
      → I l s
      → Returns Q (while fuel body l s)
  while_total body step zero l s m i = absurd (omega arith)
  while_total body step (suc fuel) l s m i =
      while-next fuel (measure l s) body l s m (step l s i) (while_total body step fuel)

module _ {S E L A : Type 0} (I : L → S → Type 0) (Q : Result A E → S → Type 0) (measure : L → S → ℕ)
    (J : S → Type 0) where
  -- What a round keeps beside its invariant holds at the end too.
  pub Round-and :
      (bound : ℕ) (r : Result (Next L A) E) (s : S)
      → Round I Q measure bound r s
      → J s
      → Round (λ l t. I l t × J t) (λ q t. Q q t × J t) measure bound r s
  Round-and bound (ok (again l)) s (i, m) j = ((i, j), m)
  Round-and bound (ok (return a)) s q j = (q, j)
  Round-and bound (err e) s q j = (q, j)
