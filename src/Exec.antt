-- ===== src/Exec.antt =====
-- Python statements that change a state and may raise. What was written before a raise stays
-- written, so the state comes back beside the exception too.
pub mod Keeps
use pycage.Prelude.{Bool, ◌≡◌, refl, if◌then◌else◌}
use pycage.Result.{Result, ok, err}

abbrev pub Exec : Type 0 → Type 0 → Type 0 → Type 0
Exec S E A = S → Result A E × S

module _ {S E A : Type 0} where
  abbrev pub pure : A → Exec S E A
  pure a s = (ok a, s)

  abbrev pub raise : E → Exec S E A
  raise e s = (err e, s)

  abbrev pub lift : Result A E → Exec S E A
  lift r s = (r, s)

  abbrev pub gets : (S → A) → Exec S E A
  gets f s = (ok (f s), s)

module _ {S E A B : Type 0} where
  abbrev pub continue : Result A E → (A → Exec S E B) → Exec S E B
  continue (ok a) f s = f a s
  continue (err e) f s = (err e, s)

infixl 5 ◌>>=◌ ◌>>◌
abbrev pub ◌>>=◌ : {S E A B : Type 0} → Exec S E A → (A → Exec S E B) → Exec S E B
◌>>=◌ m f s = continue (m s).0 f (m s).1

abbrev pub ◌>>◌ : {S E A B : Type 0} → Exec S E A → Exec S E B → Exec S E B
m >> n = m >>= λ _. n

module _ {S E : Type 0} where
  abbrev pub modify : (S → S) → Exec S E (Unit {0})
  modify f s = (ok tt, f s)

  -- `assert b`, and `if not b: raise e`
  abbrev pub require : Bool → E → Exec S E (Unit {0})
  require b e s = (if b then ok tt else err e, s)

-- `try: m finally: f`, where `f` is a statement that does not raise
abbrev pub finally : {S E A : Type 0} → Exec S E A → (S → S) → Exec S E A
finally m f s = ((m s).0, f (m s).1)

-- `try: m except e: f e`
module _ {S E A : Type 0} where
  abbrev pub handle : Result A E → (E → Exec S E A) → Exec S E A
  handle (ok a) f s = (ok a, s)
  handle (err e) f s = f e s

  abbrev pub catch : Exec S E A → (E → Exec S E A) → Exec S E A
  catch m f s = handle (m s).0 f (m s).1

-- Inversion of a bind that does not raise.
module _ {S E A B : Type 0} where
  continue-ok :
      (r : Result A E) (f : A → Exec S E B) (s : S) {b : B}
      → (continue r f s).0 ≡ ok b
      → (a : A) × (r ≡ ok a) × (continue r f s ≡ f a s)
  continue-ok (ok a) f s e = (a, refl, refl)
  continue-ok (err x) f s e = cc

  pub >>=-ok :
      (m : Exec S E A) (f : A → Exec S E B) (s : S) {b : B}
      → ((m >>= f) s).0 ≡ ok b
      → (a : A) × ((m s).0 ≡ ok a) × ((m >>= f) s ≡ f a (m s).1)
  >>=-ok m f s e = continue-ok (m s).0 f (m s).1 e
