-- ===== src/App/Interpreter/Examples.antt =====
-- The interpreter at work: what a refused and an accepted install leave, and cells that fail.
use pycage.Prelude.{
  ℕ, ◌≡◌, refl, String, Option, none, some, List, [], ◌∷◌, arith, str_eq, eq_iff, ◌==◌,
  if◌then◌else◌,
}
use pycage.Result.{Result, ok, err}
use pycage.App.Json.{empty, get, only_key}
use pycage.App.Process.{Statement, Python, Error, raised, expr, Kind, html, svg, json, value}
use pycage.App.Loader.{dirname, resource_path, new_resource_reader, replace_dots}
use pycage.App.Loader.Import.{IsModule, Imports}
use pycage.App.Interpreter.{
  run_result_path, pip_result_path, run_code, pip_install, install_modules, check_entries,
  check_entry, install_decoded, update_modules,
}
use pycage.App.Interpreter.Install.{
  IsLoadable, nothing-IsLoadable, Atomic, install_modules-Atomic, install_modules-IsLoadable,
}
use pycage.App.Interpreter.Import.{installed-Imports}
use pycage.App.Interpreter.Reports.{Reports, run_code-Reports}
use pycage.App.Interpreter.Mirror.{FileLaws, Mirrors, run_code-Mirrors, pip_install-Mirrors}
use pycage.App.Interpreter.Restores.{ReportLaws, streams_of, run_code-Keeps}
use pycage.App.Interpreter.Samples.{Files, entry, modules, python, process, registry_laws}
use pycage.App.Display.{execute, display}
use pycage.App.Display.Choice.{Methods, Chooses, display-Chooses}
use pycage.App.Display.Statements.{Splits, Runs, execute-Splits}

file_content : Files → String → Option String
file_content [] p = none
file_content ((q, t) ∷ files) p = if str_eq q p then some t else file_content files p

file_content-head : (p t : String) (files : Files) → file_content ((p, t) ∷ files) p ≡ some t
unfolding file_content
file_content-head p t files = ground (arith, eq_iff p p)

abbrev file_laws : FileLaws python
file_laws = record {
  content = λ s p. file_content s.world p;
  write-content = λ p t s e. file_content-head p t s.world;
}

dirname_of_package : dirname "/site-packages/a/b/__init__.py" ≡ "/site-packages/a/b"
unfolding dirname
dirname_of_package = refl

resource_of_package : resource_path (new_resource_reader "a.b") "data" ≡ "/site-packages/a/b/data"
unfolding replace_dots
resource_of_package = refl

refused_whole : (install_modules python "bad" process).1.modules ≡ empty
unfolding install_modules install_decoded update_modules check_entries check_entry get only_key
refused_whole = refl

install_modules-Atomic_example :
    Atomic python registry_laws process (install_modules python "bad" process)
install_modules-Atomic_example = install_modules-Atomic python registry_laws "bad" process

install_modules-IsLoadable_example : IsLoadable (install_modules python "modules" process).1.modules
install_modules-IsLoadable_example =
    install_modules-IsLoadable python registry_laws "modules" process nothing-IsLoadable

modules_checked : check_entries {X = String} python.quoted modules ≡ ok tt
unfolding check_entries check_entry get
modules_checked = refl

installed-Imports_example :
    (m : IsModule entry) × Imports python "tools.text" m.source m.flag
      (install_modules python "modules" process).1
unfolding only_key
installed-Imports_example =
    installed-Imports python "modules" "tools.text" process modules entry refl refl modules_checked
      refl

run_code-Reports_example :
    Reports python 2 3 "1 +"
      (record process { buffers = some "" ∷ some "" ∷ some "" ∷ some "" ∷ [] })
      (run_code python "1 +" process)
run_code-Reports_example =
    run_code-Reports python
      (λ e s. (record { name = "SyntaxError"; message = ""; traceback = "" }, refl)) "1 +" process

run_code-Mirrors_example : Mirrors python file_laws run_result_path (run_code python "7" process)
run_code-Mirrors_example = run_code-Mirrors python file_laws "7" process

pip_install-Mirrors_example :
    Mirrors python file_laws pip_result_path (pip_install python "arguments" process)
pip_install-Mirrors_example = pip_install-Mirrors python file_laws "arguments" process

-- A process whose program replaces the streams, and then raises.
abbrev hostile : Python ℕ Files String ℕ ℕ
hostile = record python {
  parse = λ code s. (ok (expr 7 ∷ []), s);
  eval = λ e s. (err (raised "ValueError"), record s { sys_stdout = 9; sys_stderr = 9 });
}

abbrev hostile_laws : ReportLaws hostile streams_of
hostile_laws = record {
  showing = record {
    getattr-view = λ v k s. refl;
    call-view = λ v s. refl;
    dumps-view = λ v s. refl;
    repr-view = λ v s. refl;
  };
  failure-view = λ e s. refl;
  dumps-view = λ r s. refl;
  write-view = λ p t s. refl;
}

run_code-Keeps_example : streams_of (run_code hostile "8" process).1 ≡ streams_of process
run_code-Keeps_example = run_code-Keeps hostile hostile_laws "8" process

execute-Splits_example :
    (rest : List (Statement ℕ ℕ)) × (last : Option ℕ) × Splits (expr 7 ∷ []) rest last
    × Runs python rest last process (execute python "7" process)
execute-Splits_example = execute-Splits python "7" process (expr 7 ∷ []) refl

-- A value whose method for HTML, 1, raises, and whose method for SVG, 2, returns 5.
abbrev rich_method : Kind → Option ℕ
rich_method html = some 1
rich_method svg = some 2
rich_method _ = none

abbrev rich_outcome : ℕ → Result (Option ℕ) (Error String)
rich_outcome m = if m == 1 then err (raised "ValueError") else ok (some 5)

abbrev rich : Python ℕ Files String ℕ ℕ
rich = record python {
  getattr = λ v k s. (ok (rich_method k), s);
  call = λ m s. (rich_outcome m, s);
}

abbrev rich_methods : Methods rich 3
rich_methods = record {
  method = rich_method;
  getattr-method = λ k s. refl;
  outcome = rich_outcome;
  call-outcome = λ m s. refl;
  dumped = λ x. ok "7";
  dumps-dumped = λ x s. refl;
  name = "7";
  repr-name = λ s. refl;
}

shows_svg : (display rich (some 3) process).0 ≡ ok (record { type_ = svg; datum = value 5 } ∷ [])
unfolding display
shows_svg = refl

display-Chooses_example :
    Chooses rich_methods (html ∷ svg ∷ json ∷ []) process (display rich (some 3) process)
display-Chooses_example = display-Chooses rich_methods process
