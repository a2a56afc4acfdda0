-- ===== src/App/Display/Statements.antt =====
-- `_execute` runs every statement of a cell.
use pycage.Prelude.{
  ◌≡◌, refl, ap, ◌⊎◌, inl, inr, Bool, true, false, String, Option, none, some, List, [], ◌∷◌, ◌++◌,
}
use pycage.Result.{Result, ok, err, Result-cases}
use pycage.Exec.{◌>>◌}
use pycage.App.Process.{Process, Python, Error, Statement, expr, other}
use pycage.App.Display.{pop_expression, exec_body, eval_last, execute}

-- The last statement is not an expression.
abbrev pub ends_plain : {E O : Type 0} → List (Statement E O) → Bool
ends_plain [] = true
ends_plain (expr e ∷ []) = false
ends_plain (other o ∷ []) = true
ends_plain (x ∷ y ∷ body) = ends_plain (y ∷ body)

-- How a cell falls apart into statements to run and an expression to show.
abbrev pub Splits : {E O : Type 0} → List (Statement E O) → List (Statement E O) → Option E → Type 0
Splits body rest none = (rest ≡ body) × (ends_plain body ≡ true)
Splits body rest (some e) = rest ++ expr e ∷ [] ≡ body

push-Splits :
    {E O : Type 0} (x y : Statement E O) (body rest : List (Statement E O)) (last : Option E)
    → Splits (y ∷ body) rest last
    → Splits (x ∷ y ∷ body) (x ∷ rest) last
push-Splits x y body rest none (p, q) = (ap (λ l. x ∷ l) p, q)
push-Splits x y body rest (some e) p = ap (λ l. x ∷ l) p

pop-Splits :
    {E O : Type 0} (body : List (Statement E O))
    → Splits body (pop_expression body).0 (pop_expression body).1
unfolding pop_expression
pop-Splits [] = (refl, refl)
pop-Splits (expr e ∷ []) = refl
pop-Splits (other o ∷ []) = (refl, refl)
pop-Splits (x ∷ y ∷ body) =
    push-Splits x y body (pop_expression (y ∷ body)).0 (pop_expression (y ∷ body)).1
      (pop-Splits (y ∷ body))

module _ {V W X E O : Type 0} (python : Python V W X E O) where
  -- What running the parts of a cell is: nothing is executed where there are no statements, and
  -- else all of them by one `exec`; the value is that of the expression, or `None` without one.
  abbrev pub Runs :
      List (Statement E O)
      → Option E
      → Process V W
      → Result (Option V) (Error X) × Process V W
      → Type 0
  Runs [] none s r = r ≡ (ok none, s)
  Runs [] (some e) s r = r ≡ python.eval e s
  Runs (x ∷ rest) none s r =
      ((python.exec (x ∷ rest) s).0 ≡ ok tt × r ≡ (ok none, (python.exec (x ∷ rest) s).1))
      ⊎ ((e : Error X) × ((python.exec (x ∷ rest) s).0 ≡ err e)
          × (r ≡ (err e, (python.exec (x ∷ rest) s).1)))
  Runs (x ∷ rest) (some e) s r =
      ((python.exec (x ∷ rest) s).0 ≡ ok tt × r ≡ python.eval e (python.exec (x ∷ rest) s).1)
      ⊎ ((f : Error X) × ((python.exec (x ∷ rest) s).0 ≡ err f)
          × (r ≡ (err f, (python.exec (x ∷ rest) s).1)))

  parts-Runs :
      (rest : List (Statement E O)) (last : Option E) (s : Process V W)
      → Runs rest last s ((exec_body python rest >> eval_last python last) s)
  parts-Runs [] none s = refl
  parts-Runs [] (some e) s = refl
  parts-Runs (x ∷ rest) none s = elim (Result-cases (python.exec (x ∷ rest) s).0) [
    | inl (u, e) ↦ inl (e, rw e refl)
    | inr (f, e) ↦ inr (f, e, rw e refl)
  ]
  parts-Runs (x ∷ rest) (some e) s = elim (Result-cases (python.exec (x ∷ rest) s).0) [
    | inl (u, p) ↦ inl (p, rw p refl)
    | inr (f, p) ↦ inr (f, p, rw p refl)
  ]

  -- A cell that parses is run whole and in order: its statements but for a last expression are
  -- executed by one `exec`, if there are any, and then that expression, if the cell ends in one, is
  -- evaluated for its value, which is `None` without one; an error of `exec` is raised and nothing
  -- is evaluated.
  pub execute-Splits :
      (code : String) (s : Process V W) (body : List (Statement E O))
      → (python.parse code s).0 ≡ ok body
      → (rest : List (Statement E O)) × (last : Option E) × Splits body rest last
        × Runs rest last (python.parse code s).1 (execute python code s)
  unfolding execute
  execute-Splits code s body e = (
    (pop_expression body).0,
    (pop_expression body).1,
    pop-Splits body,
    rw e (parts-Runs (pop_expression body).0 (pop_expression body).1 (python.parse code s).1),
  )
