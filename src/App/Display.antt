-- ===== src/App/Display.antt =====
-- guest/app.py, `_execute` and `_display`: a cell runs, and the value of its last expression is
-- shown.
pub mod Short
pub mod Showing
pub mod Statements
pub mod Choice
use pycage.Prelude.{
  Bool, true, false, String, Option, none, some, List, [], ◌∷◌, ◌&&◌, not, if◌then◌else◌,
}
use pycage.Exec.{pure, raise, catch, ◌>>=◌, ◌>>◌}
use pycage.App.Process.{
  Process, Python, Run, Statement, expr, other, Datum, value, literal, Kind, html, svg, json, text,
  Output,
}

-- `tree.body.pop()` where the last statement is an expression.
abbrev pub push_front :
    {E O : Type 0}
    → Statement E O
    → List (Statement E O) × Option E
    → List (Statement E O) × Option E
push_front x (body, last) = (x ∷ body, last)

unfoldable pub pop_expression :
    {E O : Type 0} → List (Statement E O) → List (Statement E O) × Option E
pop_expression [] = ([], none)
pop_expression (expr e ∷ []) = ([], some e)
pop_expression (other o ∷ []) = (other o ∷ [], none)
pop_expression (x ∷ y ∷ body) = push_front x (pop_expression (y ∷ body))

is_json : Kind → Bool
is_json json = true
is_json k = false

-- `rich_reprs`
abbrev pub rich_reprs : List Kind
rich_reprs = html ∷ svg ∷ json ∷ []

module _ {V W X E O : Type 0} (python : Python V W X E O) where
  abbrev pub exec_body : List (Statement E O) → Run V W X (Unit {0})
  exec_body [] = pure tt
  exec_body (x ∷ body) = python.exec (x ∷ body)

  abbrev pub eval_last : Option E → Run V W X (Option V)
  eval_last none = pure none
  eval_last (some e) = python.eval e

  -- `_execute`
  unfoldable pub execute : String → Run V W X (Option V)
  unfolding pop_expression
  execute code = python.parse code >>= λ body.
      let (rest, last) = pop_expression body in exec_body rest >> eval_last last

  -- What a rendering becomes: `None` is no output.
  render : Kind → Option V → Run V W X (Option (Output V))
  unfolding is_json
  render kind none = pure none
  render kind (some v) =
      if is_json kind && not (python.is_str v)
      then (python.dumps_value v >>= λ t. pure (some (record { type_ = kind; datum = literal t })))
      else pure (some (record { type_ = kind; datum = value v }))

  -- A round of the loop over `rich_reprs`, for a value whose method was looked up.
  attempt : Kind → Option V → Run V W X (Option (Output V))
  unfolding render
  attempt kind none = pure none
  attempt kind (some method) =
      catch (python.call method >>= render kind)
        (λ e. if python.is_exception e then pure none else raise e)

  first_rich : V → List Kind → Run V W X (Option (Output V))
  unfolding attempt
  first_rich v [] = pure none
  first_rich v (k ∷ ks) =
      let rest = first_rich v ks in
      python.getattr v k >>= attempt k >>= λ o. elim o [ none ↦ rest | some out ↦ pure (some out) ]

  shown : V → Option (Output V) → Run V W X (List (Output V))
  shown v (some out) = pure (out ∷ [])
  shown v none = python.repr v >>= λ t. pure ((record { type_ = text; datum = literal t }) ∷ [])

  -- `_display`
  unfoldable pub display : Option V → Run V W X (List (Output V))
  unfolding first_rich shown
  display none = pure []
  display (some v) = first_rich v rich_reprs >>= shown v
