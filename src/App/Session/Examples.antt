-- ===== src/App/Session/Examples.antt =====
-- A session: a refused install, an accepted one, a cell that raises, a call of pip and a reset.
use pycage.Prelude.{◌≡◌, refl, List, [], ◌∷◌}
use pycage.App.Loader.Import.{IsModule, Imports}
use pycage.App.Interpreter.Samples.{python, process, entry, registry_laws, tools_installed}
use pycage.App.Interpreter.{reset}
use pycage.App.Interpreter.Restores.{ReportLaws, ProgramLaws, modules_of}
use pycage.App.Interpreter.Registry.{registry_of}
use pycage.App.Session.{Request, runs, installs, pips, resets, serve, serve_all}
use pycage.App.Session.Registry.{registry_steps, serve_all-Refines, serve_all-Imports}

abbrev requests : List Request
requests = installs "bad" ∷ installs "modules" ∷ runs "1 +" ∷ pips "arguments" ∷ resets ∷ []

abbrev report_laws : ReportLaws python modules_of
report_laws = record {
  showing = record {
    getattr-view = λ v k s. refl;
    call-view = λ v s. refl;
    dumps-view = λ v s. refl;
    repr-view = λ v s. refl;
  };
  failure-view = λ e s. refl;
  dumps-view = λ r s. refl;
  write-view = λ p t s. refl;
}

abbrev program_laws : ProgramLaws python
program_laws = record {
  reporting = report_laws;
  parse-modules = λ code s. refl;
  exec-modules = λ body s. refl;
  eval-modules = λ e s. refl;
  adapter-modules = λ s. refl;
}

serve_all-Refines_example :
    registry_of (serve_all python requests process)
    ≡ registry_steps python requests (registry_of process)
serve_all-Refines_example = serve_all-Refines python registry_laws program_laws requests process

serve_all-Imports_example :
    (m : IsModule entry) × Imports python "tools.text" m.source m.flag
      (serve_all python (installs "modules" ∷ resets ∷ []) process)
unfolding serve_all serve reset
serve_all-Imports_example =
    serve_all-Imports python registry_laws program_laws (installs "modules" ∷ resets ∷ []) process
      "tools.text" entry refl tools_installed
