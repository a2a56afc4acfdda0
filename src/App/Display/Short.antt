-- ===== src/App/Display/Short.antt =====
-- A value is shown in at most one way.
use pycage.Prelude.{◌≤◌, ◌≡◌, sym, Option, none, some, List, arith, length, inl, inr}
use pycage.Result.{ok, Result-cases}
use pycage.Exec.{>>=-ok}
use pycage.App.Process.{Process, Python, Output}
use pycage.App.Display.{first_rich, shown, rich_reprs, display}

module _ {V W X E O : Type 0} (python : Python V W X E O) where
  shown-short :
      (v : V) (o : Option (Output V)) (s : Process V W) (l : List (Output V))
      → (shown python v o s).0 ≡ ok l
      → length l ≤ 1
  unfolding shown
  shown-short v (some out) s l e = ground arith
  shown-short v none s l e = elim (Result-cases (python.repr v s).0) [
    | inl (t, q) ↦ ground arith
    | inr (x, q) ↦ absurd (ground arith)
  ]

  pub display-short :
      (v : Option V) (s : Process V W) (l : List (Output V))
      → (display python v s).0 ≡ ok l
      → length l ≤ 1
  unfolding display
  display-short none s l e = ground arith
  display-short (some v) s l e =
      let (o, p, q) = >>=-ok (first_rich python v rich_reprs) (shown python v) s e in
      shown-short v o (first_rich python v rich_reprs s).1 l (rw (sym q) e)
