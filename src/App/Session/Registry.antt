-- ===== src/App/Session/Registry.antt =====
-- The registry over a session: a map from names to modules, which only an accepted install changes.
-- A cell can reach the finder by `sys.meta_path` and change its registry behind the back of
-- app.py; RegistryLaws and ProgramLaws are the hypotheses that no cell does.
use pycage.Prelude.{◌≡◌, refl, ◌∙◌, ap, subst, sym, fun_ext, String, some, List, [], ◌∷◌}
use pycage.App.Json.{Json, empty, get}
use pycage.App.Loader.Import.{IsModule, Imports, registered-Imports}
use pycage.App.Process.{Process, Python}
use pycage.App.Interpreter.{reset}
use pycage.App.Interpreter.Install.{
  RegistryLaws, IsLoadable, nothing-IsLoadable, pip_install-Keeps, install_modules-IsLoadable,
}
use pycage.App.Interpreter.Restores.{ProgramLaws, run_code-modules}
use pycage.App.Interpreter.Registry.{
  Registry, extended, registry_of, accepted, install_modules-registry,
}
use pycage.App.Session.{Request, runs, installs, pips, resets, serve, serve_all}

module _ {V W X E O : Type 0} (python : Python V W X E O) where
  -- The specification: what a request makes of the map.
  abbrev pub registry_step : Request → Registry → Registry
  registry_step (runs code) m = m
  registry_step (installs modules) m = extended (accepted python modules) m
  registry_step (pips arguments) m = m
  registry_step resets m = m

  abbrev pub registry_steps : List Request → Registry → Registry
  registry_steps [] m = m
  registry_steps (r ∷ rs) m = registry_steps rs (registry_step r m)

module _ {V W X E O : Type 0} (python : Python V W X E O) (laws : RegistryLaws python)
    (programs : ProgramLaws python) where
  serve-registry :
      (r : Request) (s : Process V W) (name : String)
      → registry_of (serve python r s).1 name ≡ registry_step python r (registry_of s) name
  unfolding serve reset
  serve-registry (runs code) s name = ap (get name) (run_code-modules python programs code s)
  serve-registry (installs modules) s name = install_modules-registry python laws modules s name
  serve-registry (pips arguments) s name = ap (get name) (pip_install-Keeps python laws arguments s)
  serve-registry resets s name = refl

  -- Where neither what a cell runs (its statements, its expression, the methods of its value and the
  -- reading of its exception) nor pip nor a write of a file changes the registry by itself, as
  -- `sys.meta_path[0].modules.clear()` in a cell would (RegistryLaws, ProgramLaws), the registry is
  -- after any requests, as a map from names to modules, what the specification makes of it: an
  -- install adds its whole dict or nothing, and app.py's own code for a cell, for a call of pip, for
  -- a reset and for an exception changes nothing.
  pub serve_all-Refines :
      (rs : List Request) (s : Process V W)
      → registry_of (serve_all python rs s) ≡ registry_steps python rs (registry_of s)
  unfolding serve_all
  serve_all-Refines [] s = refl
  serve_all-Refines (r ∷ rs) s =
      serve_all-Refines rs (serve python r s).1
      ∙ ap (registry_steps python rs) (fun_ext (serve-registry r s))

  serve-IsLoadable :
      (r : Request) (s : Process V W)
      → IsLoadable s.modules
      → IsLoadable (serve python r s).1.modules
  unfolding serve reset
  serve-IsLoadable (runs code) s good =
      subst IsLoadable (sym (run_code-modules python programs code s)) good
  serve-IsLoadable (installs modules) s good = install_modules-IsLoadable python laws modules s good
  serve-IsLoadable (pips arguments) s good =
      subst IsLoadable (sym (pip_install-Keeps python laws arguments s)) good
  serve-IsLoadable resets s good = good

  serve_all-IsLoadable :
      (rs : List Request) (s : Process V W)
      → IsLoadable s.modules
      → IsLoadable (serve_all python rs s).modules
  unfolding serve_all
  serve_all-IsLoadable [] s good = good
  serve_all-IsLoadable (r ∷ rs) s good =
      serve_all-IsLoadable rs (serve python r s).1 (serve-IsLoadable r s good)

  -- Where neither what a cell runs nor pip nor a write of a file changes the registry by itself
  -- (RegistryLaws, ProgramLaws), a process that starts with an empty registry can, after any
  -- requests, import each module that its registry names: the entry has a source and a package flag,
  -- the finder finds it, and the loader runs its source.
  pub serve_all-Imports :
      (rs : List Request) (s : Process V W) (name : String) (entry : Json)
      → s.modules ≡ empty
      → get name (serve_all python rs s).modules ≡ some entry
      → (m : IsModule entry) × Imports python name m.source m.flag (serve_all python rs s)
  serve_all-Imports rs s name entry fresh e =
      let m =
        serve_all-IsLoadable rs s (subst IsLoadable (sym fresh) nothing-IsLoadable) name entry e in
      (m, registered-Imports python name entry (serve_all python rs s) m e)
