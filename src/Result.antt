-- ===== src/Result.antt =====
-- guest/componentize_py_types.py: `Ok`, `Err` and their union. `Err` is also an exception, so the
-- same type serves as the outcome of Python code that may raise.
use pycage.Prelude.{◌≡◌, refl, ◌⊎◌, inl, inr}

pub data Result {ℓ} (A E : Type ℓ) : Type ℓ where
  ok : A → Result A E
  err : E → Result A E

pub Result-cases {ℓ} :
    {A E : Type ℓ} (r : Result A E) → ((a : A) × (r ≡ ok a)) ⊎ ((e : E) × (r ≡ err e))
Result-cases (ok a) = inl (a, refl)
Result-cases (err e) = inr (e, refl)
