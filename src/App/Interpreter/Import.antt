-- ===== src/App/Interpreter/Import.antt =====
-- What `install_modules` accepted is what the import system finds and runs.
use pycage.Prelude.{◌≡◌, String, none, some, arith}
use pycage.Result.{ok}
use pycage.App.Json.{Json, Dict, object, get}
use pycage.App.Json.Lookup.{last, get-update}
use pycage.App.Process.{Process, Python}
use pycage.App.Loader.Import.{IsModule, Imports, registered-Imports}
use pycage.App.Interpreter.{
  check_entries, pip_arguments, update_modules, install_decoded, install_modules,
}
use pycage.App.Interpreter.Install.{check_entries-last}

module _ {V W X E O : Type 0} (python : Python V W X E O) where
  installed-get :
      (modules name : String) (s : Process V W) (d : Dict) (entry : Json)
      → python.loads modules ≡ ok (object d)
      → pip_arguments (object d) ≡ none
      → check_entries {X = X} python.quoted d ≡ ok tt
      → last name d ≡ some entry
      → get name (install_modules python modules s).1.modules ≡ some entry
  unfolding install_modules install_decoded update_modules
  installed-get modules name s d entry l p c e = ground (arith, get-update name s.modules d)

  -- When the text is a dict of accepted entries, and not a call of pip, every module that it names
  -- is found by the import system with its own package flag, and running it runs its own source.
  pub installed-Imports :
      (modules name : String) (s : Process V W) (d : Dict) (entry : Json)
      → python.loads modules ≡ ok (object d)
      → pip_arguments (object d) ≡ none
      → check_entries {X = X} python.quoted d ≡ ok tt
      → last name d ≡ some entry
      → (m : IsModule entry) × Imports python name m.source m.flag
          (install_modules python modules s).1
  installed-Imports modules name s d entry l p c e =
      let m = check_entries-last {X = X} python.quoted d name entry c e in
      (
        m,
        registered-Imports python name entry (install_modules python modules s).1 m
            (installed-get modules name s d entry l p c e),
      )
