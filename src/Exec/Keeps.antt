-- ===== src/Exec/Keeps.antt =====
-- Statements that leave a part of the state alone, whether they raise or not.
use pycage.Prelude.{◌≡◌, refl, ◌∙◌}
use pycage.Result.{Result, ok, err}
use pycage.Exec.{Exec, continue, handle, catch, ◌>>=◌}

module _ {S E C : Type 0} (view : S → C) where
  abbrev pub Keeps : {A : Type 0} → Exec S E A → Type 0
  Keeps m = (s : S) → view (m s).1 ≡ view s

  pub >>=-Keeps :
      {A B : Type 0} (m : Exec S E A) (f : A → Exec S E B)
      → Keeps m
      → ((a : A) → Keeps (f a))
      → Keeps (m >>= f)
  >>=-Keeps {A} {B} m f p q s = go (m s).0 (m s).1 ∙ p s
    where
      go : (r : Result A E) (t : S) → view (continue r f t).1 ≡ view t
      go (ok a) t = q a t
      go (err e) t = refl

  pub catch-Keeps :
      {A : Type 0} (m : Exec S E A) (f : E → Exec S E A)
      → Keeps m
      → ((e : E) → Keeps (f e))
      → Keeps (catch m f)
  catch-Keeps {A} m f p q s = go (m s).0 (m s).1 ∙ p s
    where
      go : (r : Result A E) (t : S) → view (handle r f t).1 ≡ view t
      go (ok a) t = refl
      go (err e) t = q e t

  -- Handlers that keep the view leave it as the body did.
  pub catch-view :
      {A : Type 0} (m : Exec S E A) (f : E → Exec S E A)
      → ((e : E) → Keeps (f e))
      → (s : S) → view (catch m f s).1 ≡ view (m s).1
  catch-view {A} m f q s = go (m s).0 (m s).1
    where
      go : (r : Result A E) (t : S) → view (handle r f t).1 ≡ view t
      go (ok a) t = refl
      go (err e) t = q e t
