-- ===== src/PollLoop/EventLoop/Indices.antt =====
-- The flags that `mark` sets are those of the indices, and what they pick are the entries at those
-- positions.
use pycage.Prelude.{
  ℕ, zero, suc, ◌+◌, ◌<◌, ◌≡◌, refl, Bool, true, false, ◌||◌, List, [], ◌∷◌, if◌then◌else◌, ◌==◌,
  ltb, length, set, replicate, arith, inl, inr, Bool-cases, ap, ◌∙◌,
}
use pycage.Result.{ok}
use pycage.PollLoop.EventLoop.{mark}

abbrev pub contains : ℕ → List ℕ → Bool
contains i [] = false
contains i (j ∷ js) = j == i || contains i js

-- The entries whose position, counted from `k`, is among the indices, and the others.
abbrev pub chosen {ℓ} : {A : Type ℓ} → List ℕ → ℕ → List A → List A
chosen is k [] = []
chosen is k (x ∷ xs) = let rest = chosen is (suc k) xs in if contains k is then x ∷ rest else rest

abbrev pub others {ℓ} : {A : Type ℓ} → List ℕ → ℕ → List A → List A
others is k [] = []
others is k (x ∷ xs) = let rest = others is (suc k) xs in if contains k is then rest else x ∷ rest

abbrev pub flag_at : List Bool → ℕ → Bool
flag_at [] i = false
flag_at (b ∷ bs) zero = b
flag_at (b ∷ bs) (suc i) = flag_at bs i

flag_at-set :
    (bs : List Bool) (i j : ℕ)
    → i < length bs
    → flag_at (set bs i true) j ≡ (i == j || flag_at bs j)
flag_at-set [] i j h = absurd (omega arith)
flag_at-set (b ∷ bs) zero zero h = refl
flag_at-set (b ∷ bs) zero (suc j) h = ground arith
flag_at-set (b ∷ bs) (suc i) zero h = ground arith
flag_at-set (b ∷ bs) (suc i) (suc j) h = ground (arith, flag_at-set bs i j)

pub length-set : (bs : List Bool) (i : ℕ) → length (set bs i true) ≡ length bs
length-set [] i = refl
length-set (b ∷ bs) zero = refl
length-set (b ∷ bs) (suc i) = ap suc (length-set bs i)

pub flag_at-replicate : (n i : ℕ) → flag_at (replicate n false) i ≡ false
flag_at-replicate zero i = refl
flag_at-replicate (suc n) zero = refl
flag_at-replicate (suc n) (suc i) = flag_at-replicate n i

pub flag_at-mark :
    (is : List ℕ) (bs flags : List Bool)
    → mark is bs ≡ ok flags
    → (length flags ≡ length bs) × ((j : ℕ) → flag_at flags j ≡ (contains j is || flag_at bs j))
unfolding mark
flag_at-mark [] bs flags e = (ground arith, λ j. ground arith)
flag_at-mark (i ∷ is) bs flags e = elim (Bool-cases (ltb i (length bs))) [
  | inl inside ↦
      let ih = flag_at-mark is (set bs i true) flags (ground arith) in
      (ih.0 ∙ length-set bs i, λ j. ground (arith, ih.1 j, flag_at-set bs i j))
  | inr outside ↦ absurd (ground arith)
]

-- The entries whose flag is set, and the others.
abbrev pub picked {ℓ} : {A : Type ℓ} → List Bool → List A → List A
picked (b ∷ bs) (x ∷ xs) = let rest = picked bs xs in if b then x ∷ rest else rest
picked _ _ = []

abbrev pub left {ℓ} : {A : Type ℓ} → List Bool → List A → List A
left (b ∷ bs) (x ∷ xs) = let rest = left bs xs in if b then rest else x ∷ rest
left _ _ = []

module _ {ℓ} {A : Type ℓ} (is : List ℕ) where
  pub picked-chosen :
      (k : ℕ) (flags : List Bool) (xs : List A)
      → length flags ≡ length xs
      → ((j : ℕ) → flag_at flags j ≡ contains (k + j) is)
      → (picked flags xs ≡ chosen is k xs) × (left flags xs ≡ others is k xs)
  picked-chosen k [] [] e h = (refl, refl)
  picked-chosen k [] (x ∷ xs) e h = absurd (omega arith)
  picked-chosen k (b ∷ bs) [] e h = absurd (omega arith)
  picked-chosen k (b ∷ bs) (x ∷ xs) e h =
      let ih =
        picked-chosen (suc k) bs xs (omega arith)
          (λ j. h (suc j) ∙ ap (λ n. contains n is) (omega arith)) in
      let here : b ≡ contains k is = h 0 ∙ ap (λ n. contains n is) (omega arith) in
      ground (arith, ih, here)
