-- ===== src/App/Interpreter/Registry.antt =====
-- What a text adds to the registry, as a map from names to modules.
use pycage.Prelude.{◌≡◌, refl, ◌∙◌, ap, String, Option, none, some, arith, inl, inr}
use pycage.Result.{Result, ok, err, Result-cases}
use pycage.Exec.{pure, lift, ◌>>=◌}
use pycage.Exec.Keeps.{Keeps, >>=-Keeps, catch-view}
use pycage.App.Json.{Json, Dict, null, boolean, number, string, array, object, empty, field, get}
use pycage.App.Json.Lookup.{last, found, get-update}
use pycage.App.Process.{Process, Python, Run, Error}
use pycage.App.Interpreter.{
  check_entries, pip_arguments, update_modules, install_decoded, install_modules, pip_install,
}
use pycage.App.Interpreter.Install.{RegistryLaws, pip_install-Keeps}
use pycage.App.Interpreter.Restores.{modules_of}

abbrev pub Registry : Type 0
Registry = String → Option Json

abbrev pub extended : Option Dict → Registry → Registry
extended none m name = m name
extended (some d) m name = found (last name d) (m name)

abbrev pub registry_of : {V W : Type 0} → Process V W → Registry
registry_of s name = get name s.modules

module _ {V W X E O : Type 0} (python : Python V W X E O) where
  -- What a text adds to the registry, if it is a dict of modules all of which are accepted, and
  -- not a call of pip.
  abbrev accepted_checked : Dict → Result (Unit {0}) (Error X) → Option Dict
  accepted_checked d (ok _) = some d
  accepted_checked d (err e) = none

  abbrev accepted_entries : Json → Option Dict
  accepted_entries (object d) = accepted_checked d (check_entries python.quoted d)
  accepted_entries j = none

  abbrev accepted_json : Json → Option Json → Option Dict
  accepted_json j none = accepted_entries j
  accepted_json j (some arguments) = none

  abbrev accepted_loaded : Result Json (Error X) → Option Dict
  accepted_loaded (ok j) = accepted_json j (pip_arguments j)
  accepted_loaded (err e) = none

  abbrev pub accepted : String → Option Dict
  accepted modules = accepted_loaded (python.loads modules)

module _ {V W X E O : Type 0} (python : Python V W X E O) (laws : RegistryLaws python) where
  abbrev answer : Error X → Run V W X String
  answer e = python.describe e >>= λ message.
      pure (python.dumps (object (field "error" (string message) empty)))

  answer-Keeps : (e : Error X) → Keeps modules_of (answer e)
  answer-Keeps e =
      >>=-Keeps modules_of (python.describe e)
        (λ message. pure (python.dumps (object (field "error" (string message) empty))))
        (laws.describe-modules e) (λ message s. refl)

  update_modules-registry :
      (j : Json) (s : Process V W) (name : String)
      → registry_of (update_modules python j s).1 name
        ≡ extended (accepted_entries python j) (registry_of s) name
  unfolding update_modules
  update_modules-registry (object d) s name =
      elim (Result-cases (check_entries {X = X} python.quoted d)) [
        | inl (_, e) ↦ ground (arith, get-update name s.modules d)
        | inr (x, e) ↦ ground arith
      ]
  update_modules-registry null s name = refl
  update_modules-registry (boolean b) s name = refl
  update_modules-registry (number n) s name = refl
  update_modules-registry (string t) s name = refl
  update_modules-registry (array js) s name = refl

  install_decoded-registry :
      (j : Json) (s : Process V W) (name : String)
      → registry_of (install_decoded python j s).1 name
        ≡ extended (accepted_json python j (pip_arguments j)) (registry_of s) name
  unfolding install_decoded
  install_decoded-registry j s name = go (pip_arguments j)
    where
      go :
          (o : Option Json)
          → registry_of
              ((elim o as (λ _. Run V W X String) [
                | none ↦ update_modules python j
                | some arguments ↦ pip_install python (python.dumps arguments)
              ])
                s).1
              name
            ≡ extended (accepted_json python j o) (registry_of s) name
      go none = update_modules-registry j s name
      go (some arguments) = ap (get name) (pip_install-Keeps python laws (python.dumps arguments) s)

  pub install_modules-registry :
      (modules : String) (s : Process V W) (name : String)
      → registry_of (install_modules python modules s).1 name
        ≡ extended (accepted python modules) (registry_of s) name
  unfolding install_modules
  install_modules-registry modules s name =
      ap (get name) (
        catch-view modules_of (lift (python.loads modules) >>= install_decoded python) answer
          answer-Keeps s)
      ∙ go (python.loads modules)
    where
      go :
          (r : Result Json (Error X))
          → registry_of ((lift r >>= install_decoded python) s).1 name
            ≡ extended (accepted_loaded python r) (registry_of s) name
      go (ok j) = install_decoded-registry j s name
      go (err e) = refl
