-- ===== src/App/Display/Showing.antt =====
-- Showing a value leaves a part of the process alone that the methods of the value leave alone.
use pycage.Prelude.{
  Bool, true, false, refl, Option, none, some, List, [], ◌∷◌, ◌&&◌, not, if◌then◌else◌,
}
use pycage.Exec.{pure, raise, ◌>>=◌}
use pycage.Exec.Keeps.{Keeps, >>=-Keeps, catch-Keeps}
use pycage.App.Process.{Process, Python, Run, Output, Kind, text, literal, value}
use pycage.App.Display.{is_json, rich_reprs, render, attempt, first_rich, shown, display}

-- The methods that show a value leave the view of the process as it is.
pub record DisplayLaws {V W X E O C : Type 0} (python : Python V W X E O) (view : Process V W → C)
    : Type 0 where
  pub getattr-view : (v : V) (k : Kind) → Keeps view (python.getattr v k)
  pub call-view : (v : V) → Keeps view (python.call v)
  pub dumps-view : (v : V) → Keeps view (python.dumps_value v)
  pub repr-view : (v : V) → Keeps view (python.repr v)

module _ {V W X E O C : Type 0} (python : Python V W X E O) (view : Process V W → C)
    (laws : DisplayLaws python view) where
  if-Keeps :
      {A : Type 0} (b : Bool) (m n : Run V W X A)
      → Keeps view m
      → Keeps view n
      → Keeps view (if b then m else n)
  if-Keeps true m n p q = p
  if-Keeps false m n p q = q

  render-Keeps : (k : Kind) (o : Option V) → Keeps view (render python k o)
  unfolding render
  render-Keeps k none = λ s. refl
  render-Keeps k (some v) =
      if-Keeps (is_json k && not (python.is_str v))
        (python.dumps_value v >>= λ t. pure (some (record { type_ = k; datum = literal t })))
        (pure (some (record { type_ = k; datum = value v })))
        (>>=-Keeps view (python.dumps_value v)
          (λ t. pure (some (record { type_ = k; datum = literal t }))) (laws.dumps-view v)
          (λ t s. refl))
        (λ s. refl)

  attempt-Keeps : (k : Kind) (o : Option V) → Keeps view (attempt python k o)
  unfolding attempt
  attempt-Keeps k none = λ s. refl
  attempt-Keeps k (some m) =
      catch-Keeps view (python.call m >>= render python k)
        (λ e. if python.is_exception e then pure none else raise e)
        (>>=-Keeps view (python.call m) (render python k) (laws.call-view m) (render-Keeps k))
        (λ e. if-Keeps (python.is_exception e) (pure none) (raise e) (λ s. refl) (λ s. refl))

  first_rich-Keeps : (v : V) (ks : List Kind) → Keeps view (first_rich python v ks)
  unfolding first_rich
  first_rich-Keeps v [] = λ s. refl
  first_rich-Keeps v (k ∷ ks) =
      >>=-Keeps view (python.getattr v k >>= attempt python k)
        (λ o. elim o [ none ↦ first_rich python v ks | some out ↦ pure (some out) ])
        (>>=-Keeps view (python.getattr v k) (attempt python k) (laws.getattr-view v k)
          (attempt-Keeps k))
        (rest (first_rich-Keeps v ks))
    where
      rest :
          Keeps view (first_rich python v ks)
          → (o : Option (Output V))
          → Keeps view (elim o as (λ _. Run V W X (Option (Output V))) [
            | none ↦ first_rich python v ks
            | some out ↦ pure (some out)
          ])
      rest h none = h
      rest h (some out) = λ s. refl

  shown-Keeps : (v : V) (o : Option (Output V)) → Keeps view (shown python v o)
  unfolding shown
  shown-Keeps v (some out) = λ s. refl
  shown-Keeps v none =
      >>=-Keeps view (python.repr v) (λ t. pure ((record { type_ = text; datum = literal t }) ∷ []))
        (laws.repr-view v) (λ t s. refl)

  pub display-Keeps : (o : Option V) → Keeps view (display python o)
  unfolding display
  display-Keeps none = λ s. refl
  display-Keeps (some v) =
      >>=-Keeps view (first_rich python v rich_reprs) (shown python v)
        (first_rich-Keeps v rich_reprs) (shown-Keeps v)
