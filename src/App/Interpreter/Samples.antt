-- ===== src/App/Interpreter/Samples.antt =====
-- A process in which the cell `7` shows `7`, every other cell raises, and the text `modules` names
-- one module.
use pycage.Prelude.{
  ℕ, ◌≡◌, refl, false, true, String, none, some, List, [], ◌∷◌, str_eq, if◌then◌else◌,
}
use pycage.Result.{Result, ok, err}
use pycage.App.Json.{
  Json, Dict, get, only_key, empty, field, object, array, nil, item, string, boolean,
}
use pycage.App.Json.Lookup.{get-update}
use pycage.App.Process.{Process, Python, Error, raised, expr}
use pycage.App.Interpreter.{
  check_entry, check_entries, update_modules, install_decoded, install_modules,
}
use pycage.App.Interpreter.Install.{RegistryLaws}

abbrev pub Files : Type 0
Files = List (String × String)

abbrev pub entry : Json
entry = object (field "source" (string "x = 1") (field "package" (boolean true) empty))

abbrev pub bad_entry : Json
bad_entry = object (field "source" (string "x = 1") (field "package" (string "yes") empty))

abbrev pub modules : Dict
modules = field "tools.text" entry empty

-- The second entry is refused, so the first is not taken either.
abbrev pub bad_modules : Dict
bad_modules = field "tools.text" entry (field "broken" bad_entry empty)

abbrev pub loads : String → Result Json (Error String)
loads t =
    if str_eq t "modules"
    then ok (object modules)
    else if str_eq t "bad"
    then ok (object bad_modules)
    else if str_eq t "arguments"
    then ok (array (item (string "install") nil))
    else err (raised "JSONDecodeError")

abbrev pub python : Python ℕ Files String ℕ ℕ
python = record {
  parse = λ code s. (if str_eq code "7" then ok (expr 7 ∷ []) else err (raised "SyntaxError"), s);
  exec = λ body s. (ok tt, s);
  eval = λ e s. (ok (some e), s);
  getattr = λ v k s. (ok none, s);
  call = λ v s. (ok none, s);
  is_str = λ v. false;
  repr = λ v s. (ok "7", s);
  is_exception = λ e. true;
  failure = λ e s. (ok (record { name = "SyntaxError"; message = ""; traceback = "" }), s);
  describe = λ e s. (ok "SyntaxError: ", s);
  loads = loads;
  dumps = λ j. "{…}";
  dumps_value = λ v s. (ok "7", s);
  dumps_report = λ r s. (ok "{…}", s);
  write_file = λ p t s. (ok tt, record s { world = (p, t) ∷ s.world });
  install_requests_adapter = λ s. (ok false, s);
  pip_main = λ l s. (ok (some 2), s);
  initial_globals = [];
  exec_source = λ m t file s. (ok tt, s);
  read_file = λ p s. (ok "", s);
  isfile = λ p s. (ok false, s);
  listdir = λ p s. (ok [], s);
  is_os_error = λ e. true;
  quoted = λ t. t;
  is_zero = λ t. false;
  decimal = λ n. "2";
}

abbrev pub process : Process ℕ Files
process = record {
  globals = [];
  modules = empty;
  sys_stdout = 0;
  sys_stderr = 1;
  buffers = some "" ∷ some "" ∷ [];
  world = [];
}

abbrev pub registry_laws : RegistryLaws python
registry_laws = record {
  describe-modules = λ e s. refl;
  pip-modules = λ l s. refl;
  write-modules = λ p t s. refl;
}

pub tools_installed :
    get "tools.text" (install_modules python "modules" process).1.modules ≡ some entry
unfolding install_modules install_decoded update_modules check_entries check_entry get only_key
tools_installed = get-update "tools.text" empty modules
