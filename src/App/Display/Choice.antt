-- ===== src/App/Display/Choice.antt =====
-- Which rendering `_display` chooses, for a value whose methods leave the process alone.
use pycage.Prelude.{
  String, ◌≡◌, refl, Option, none, some, List, [], ◌∷◌, ◌++◌, ◌⊎◌, inl, inr, if◌then◌else◌, ap,
  Bool-cases,
}
use pycage.Result.{Result, ok, err}
use pycage.Exec.{pure, raise, catch, continue, ◌>>=◌}
use pycage.App.Process.{
  Process, Python, Run, Error, Kind, html, svg, json, text, Output, value, literal,
}
use pycage.App.Display.{is_json, render, attempt, first_rich, shown, display}

-- What the methods of the value `v` come to; none of them touches the process.
pub record Methods {V W X E O : Type 0} (python : Python V W X E O) (v : V) : Type 0 where
  pub method : Kind → Option V
  pub getattr-method : (k : Kind) (s : Process V W) → python.getattr v k s ≡ (ok (method k), s)
  pub outcome : V → Result (Option V) (Error X)
  pub call-outcome : (m : V) (s : Process V W) → python.call m s ≡ (outcome m, s)
  pub dumped : V → Result String (Error X)
  pub dumps-dumped : (x : V) (s : Process V W) → python.dumps_value x s ≡ (dumped x, s)
  pub name : String
  pub repr-name : (s : Process V W) → python.repr v s ≡ (ok name, s)

-- What a kind of rendering comes to: there is one, there is none, or it breaks off the display.
pub data Verdict (V X : Type 0) : Type 0 where
  gives : Output V → Verdict V X
  nothing : Verdict V X
  breaks : Error X → Verdict V X

module _ {V W X E O : Type 0} {python : Python V W X E O} {v : V} (methods : Methods python v) where
  open methods use {method, outcome, dumped, name}

  -- An `Exception` is no rendering, also one of `json.dumps`; other exceptions are raised.
  abbrev of_error : Error X → Verdict V X
  of_error e = if python.is_exception e then nothing else breaks e

  abbrev of_text : Result String (Error X) → Verdict V X
  of_text (ok t) = gives (record { type_ = json; datum = literal t })
  of_text (err e) = of_error e

  abbrev of_value : Kind → V → Verdict V X
  of_value json x =
      if python.is_str x
      then gives (record { type_ = json; datum = value x })
      else of_text (dumped x)
  of_value k x = gives (record { type_ = k; datum = value x })

  abbrev of_outcome : Kind → Result (Option V) (Error X) → Verdict V X
  of_outcome k (ok none) = nothing
  of_outcome k (ok (some x)) = of_value k x
  of_outcome k (err e) = of_error e

  abbrev pub verdict : Kind → Verdict V X
  verdict k = elim (method k) [ none ↦ nothing | some m ↦ of_outcome k (outcome m) ]

  abbrev pub AreNothing : List Kind → Type 0
  AreNothing [] = Unit {0}
  AreNothing (k ∷ ks) = (verdict k ≡ nothing) × AreNothing ks

  -- The kinds before `k` come to nothing.
  abbrev pub IsFirst : List Kind → Kind → Type 0
  IsFirst ks k =
      (before : List Kind) × (after : List Kind) × (ks ≡ before ++ k ∷ after) × AreNothing before

  -- What an attempt makes of a verdict.
  abbrev answer_of : Verdict V X → Result (Option (Output V)) (Error X)
  answer_of (gives o) = ok (some o)
  answer_of nothing = ok none
  answer_of (breaks e) = err e

  -- The handler of an attempt.
  abbrev passes : Error X → Run V W X (Option (Output V))
  passes e = if python.is_exception e then pure none else raise e

  error-verdict : (e : Error X) (s : Process V W) → passes e s ≡ (answer_of (of_error e), s)
  error-verdict e s = elim (Bool-cases (python.is_exception e)) [
    | inl y ↦ rw y refl
    | inr n ↦ rw n refl
  ]

  text-verdict :
      (r : Result String (Error X)) (s : Process V W)
      → catch
          (λ _. continue r (λ t. pure (some (record { type_ = json; datum = literal t }))) s)
          passes
          s
        ≡ (answer_of (of_text r), s)
  text-verdict (ok t) s = refl
  text-verdict (err e) s = error-verdict e s

  value-verdict :
      (k : Kind) (x : V) (s : Process V W)
      → catch (render python k (some x)) passes s ≡ (answer_of (of_value k x), s)
  unfolding render is_json
  value-verdict html x s = refl
  value-verdict svg x s = refl
  value-verdict text x s = refl
  value-verdict json x s = elim (Bool-cases (python.is_str x)) [
    | inl y ↦ rw y refl
    | inr n ↦ rw (n, methods.dumps-dumped x s) (text-verdict (dumped x) s)
  ]

  outcome-verdict :
      (k : Kind) (r : Result (Option V) (Error X)) (s : Process V W)
      → catch (λ _. continue r (render python k) s) passes s ≡ (answer_of (of_outcome k r), s)
  unfolding render
  outcome-verdict k (ok none) s = refl
  outcome-verdict k (ok (some x)) s = value-verdict k x s
  outcome-verdict k (err e) s = error-verdict e s

  attempt-verdict :
      (k : Kind) (o : Option V) (s : Process V W)
      → attempt python k o s
        ≡ (answer_of (elim o [ none ↦ nothing | some m ↦ of_outcome k (outcome m) ]), s)
  unfolding attempt
  attempt-verdict k none s = refl
  attempt-verdict k (some m) s = rw (methods.call-outcome m s) (outcome-verdict k (outcome m) s)

  -- What `_display` comes to, by the verdicts of the kinds in order.
  abbrev pub Chooses :
      List Kind → Process V W → Result (List (Output V)) (Error X) × Process V W → Type 0
  Chooses ks s (ok outputs, t) =
      (t ≡ s)
      × (((k : Kind) × (o : Output V) × IsFirst ks k × (verdict k ≡ gives o) × (outputs ≡ o ∷ []))
          ⊎ (AreNothing ks × (outputs ≡ (record { type_ = text; datum = literal name }) ∷ [])))
  Chooses ks s (err e, t) = (t ≡ s) × ((k : Kind) × IsFirst ks k × (verdict k ≡ breaks e))

  Chooses-later :
      (k : Kind) (ks : List Kind) (s : Process V W) (r : Result (List (Output V)) (Error X))
      (t : Process V W)
      → verdict k ≡ nothing
      → Chooses ks s (r, t)
      → Chooses (k ∷ ks) s (r, t)
  Chooses-later k ks s (ok outputs) t e (p, inl (j, o, (before, after, q, n), w, u)) =
      (p, inl (j, o, (k ∷ before, after, ap (λ l. k ∷ l) q, (e, n)), w, u))
  Chooses-later k ks s (ok outputs) t e (p, inr (n, u)) = (p, inr ((e, n), u))
  Chooses-later k ks s (err x) t e (p, (j, (before, after, q, n), w)) =
      (p, (j, (k ∷ before, after, ap (λ l. k ∷ l) q, (e, n)), w))

  -- A round of the loop, by the verdict of its kind.
  round-Chooses :
      (k : Kind) (ks : List Kind) (s : Process V W) (x : Verdict V X)
      → verdict k ≡ x
      → Chooses ks s ((first_rich python v ks >>= shown python v) s)
      → Chooses (k ∷ ks) s (
          ((λ (t : Process V W). (answer_of x, t))
              >>= (λ (o : Option (Output V)). elim o [
                | none ↦ first_rich python v ks
                | some out ↦ pure (some out)
              ])
              >>= shown python v)
            s)
  unfolding shown
  round-Chooses k ks s (gives o) e rest = (refl, inl (k, o, ([], ks, refl, tt), e, refl))
  round-Chooses k ks s nothing e rest =
      Chooses-later k ks s ((first_rich python v ks >>= shown python v) s).0
        ((first_rich python v ks >>= shown python v) s).1 e rest
  round-Chooses k ks s (breaks b) e rest = (refl, (k, ([], ks, refl, tt), e))

  first-Chooses :
      (ks : List Kind) (s : Process V W)
      → Chooses ks s ((first_rich python v ks >>= shown python v) s)
  unfolding first_rich shown
  first-Chooses [] s = rw (methods.repr-name s) (refl, inr (tt, refl))
  first-Chooses (k ∷ ks) s =
      rw (methods.getattr-method k s, attempt-verdict k (method k) s)
        (round-Chooses k ks s (verdict k) refl (first-Chooses ks s))

  -- Where the methods of a value leave the process alone, to look one up always returns, and `repr`
  -- of the value returns a text (Methods), `_display` of the value has one output:
  -- the rendering of the first kind, of HTML, SVG and JSON in this order, that the value has a method
  -- for which neither returns `None` nor raises an `Exception`, the encoding of JSON included; or the
  -- value's `repr` as text, where no kind has one. An exception that is no `Exception` is raised, if
  -- it comes from the first kind that does not come to nothing.
  pub display-Chooses :
      (s : Process V W) → Chooses (html ∷ svg ∷ json ∷ []) s (display python (some v) s)
  unfolding display
  display-Chooses s = first-Chooses (html ∷ svg ∷ json ∷ []) s
