-- ===== src/AsyncSupport/Dict.antt =====
-- The dict of futures: each key once, and what `put` and `remove` do to its keys and its length.
use pycage.Prelude.{
  suc, ◌≡◌, ◌≢◌, refl, Bool, true, false, Option, none, some, List, [], ◌∷◌, arith, length, ◌==◌,
  subst, inl, inr, Bool-cases,
}
use pycage.AsyncSupport.{TaskId, Waitable, put, lookup, remove}

abbrev pub is_none : {A : Type 0} → Option A → Bool
is_none none = true
is_none (some a) = false

abbrev pub All : (Waitable → Type 0) → List (Waitable × TaskId) → Type 0
All P [] = Unit {0}
All P ((x, t) ∷ fs) = P x × All P fs

-- A dict has each key once.
abbrev pub Distinct : List (Waitable × TaskId) → Type 0
Distinct [] = Unit {0}
Distinct ((x, t) ∷ fs) = (lookup x fs ≡ none) × Distinct fs

module _ {P Q : Waitable → Type 0} where
  pub All-map : (fs : List (Waitable × TaskId)) → ((x : Waitable) → P x → Q x) → All P fs → All Q fs
  All-map [] h a = tt
  All-map ((x, t) ∷ fs) h a = (h x a.0, All-map fs h a.1)

module _ (P : Waitable → Type 0) where
  pub All-put :
      (x : Waitable) (t : TaskId) (fs : List (Waitable × TaskId))
      → P x
      → All P fs
      → All P (put x t fs)
  All-put x t [] p a = (p, tt)
  All-put x t ((y, u) ∷ fs) p a = elim (Bool-cases (x == y)) [
    | inl e ↦ rw e (p, a.1)
    | inr e ↦ rw e (a.0, All-put x t fs p a.1)
  ]

-- A key that fails a test which all keys pass is new.
pub lookup-fresh :
    (P : Waitable → Bool) (x : Waitable) (fs : List (Waitable × TaskId))
    → All (λ y. P y ≡ true) fs
    → P x ≡ false
    → lookup x fs ≡ none
lookup-fresh P x [] a f = refl
lookup-fresh P x ((y, u) ∷ fs) a f = elim (Bool-cases (x == y)) [
  | inl e ↦ let same : x ≡ y = ground arith in cc (same, f, a.0)
  | inr e ↦ rw e (lookup-fresh P x fs a.1 f)
]

pub length-put :
    (x : Waitable) (t : TaskId) (fs : List (Waitable × TaskId))
    → lookup x fs ≡ none
    → length (put x t fs) ≡ suc (length fs)
length-put x t [] e = refl
length-put x t ((y, u) ∷ fs) e = ground (arith, length-put x t fs)

pub lookup-put_ne :
    (x y : Waitable) (t : TaskId) (fs : List (Waitable × TaskId))
    → y ≢ x
    → lookup y (put x t fs) ≡ lookup y fs
lookup-put_ne x y t [] n = ground arith
lookup-put_ne x y t ((z, u) ∷ fs) n = ground (arith, lookup-put_ne x y t fs n)

pub Distinct-put :
    (x : Waitable) (t : TaskId) (fs : List (Waitable × TaskId))
    → lookup x fs ≡ none
    → Distinct fs
    → Distinct (put x t fs)
Distinct-put x t [] e d = (refl, tt)
Distinct-put x t ((y, u) ∷ fs) e d = ground (arith, lookup-put_ne x y t fs, Distinct-put x t fs)

pub length-remove :
    (x : Waitable) (fs : List (Waitable × TaskId))
    → lookup x fs ≢ none
    → suc (length (remove x fs)) ≡ length fs
length-remove x [] n = absurd (n refl)
length-remove x ((y, u) ∷ fs) n = ground (arith, length-remove x fs)

pub lookup-remove_ne :
    (x y : Waitable) (fs : List (Waitable × TaskId))
    → lookup y fs ≡ none
    → lookup y (remove x fs) ≡ none
lookup-remove_ne x y [] n = refl
lookup-remove_ne x y ((z, u) ∷ fs) n = ground (arith, lookup-remove_ne x y fs)

pub Distinct-remove :
    (x : Waitable) (fs : List (Waitable × TaskId)) → Distinct fs → Distinct (remove x fs)
Distinct-remove x [] d = tt
Distinct-remove x ((y, u) ∷ fs) d =
    ground (arith, lookup-remove_ne x y fs d.0, Distinct-remove x fs d.1)

All-and :
    (P Q : Waitable → Type 0) (fs : List (Waitable × TaskId))
    → All P fs
    → All Q fs
    → All (λ x. P x × Q x) fs
All-and P Q [] a b = tt
All-and P Q ((x, t) ∷ fs) a b = ((a.0, b.0), All-and P Q fs a.1 b.1)

All-absent :
    (x : Waitable) (fs : List (Waitable × TaskId))
    → lookup x fs ≡ none
    → All (λ y. (x == y) ≡ false) fs
All-absent x [] e = tt
All-absent x ((y, u) ∷ fs) e = elim (Bool-cases (x == y)) [
  | inl same ↦ absurd (ground arith)
  | inr other ↦ (other, All-absent x fs (ground arith))
]

-- Every key that is left behind differs from the one that was removed.
pub All-remove :
    (P : Waitable → Type 0) (x : Waitable) (fs : List (Waitable × TaskId))
    → Distinct fs
    → All P fs
    → All (λ y. P y × ((x == y) ≡ false)) (remove x fs)
All-remove P x [] d a = tt
All-remove P x ((y, u) ∷ fs) d a = elim (Bool-cases (x == y)) [
  | inl e ↦
      let same : y ≡ x = ground arith in
      rw e (
        All-and P (λ z. (x == z) ≡ false) fs a.1
          (All-absent x fs (subst (λ z. lookup z fs ≡ none) same d.0)))
  | inr e ↦ rw e ((a.0, e), All-remove P x fs d.1 a.1)
]
