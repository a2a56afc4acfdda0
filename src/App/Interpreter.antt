-- ===== src/App/Interpreter.antt =====
-- guest/app.py, `class CodeInterpreter`: running a cell, installing modules, running pip, and the
-- reset.
pub mod Install
pub mod Import
pub mod Reports
pub mod Mirror
pub mod Restores
pub mod Registry
pub mod Samples
mod Examples
use Prim.Native.String.{◌++◌ as concat}
use pycage.Prelude.{ℕ, Bool, true, false, String, Option, none, some, List, [], ◌∷◌, if◌then◌else◌}
use pycage.Result.{Result, ok, err}
use pycage.Exec.{pure, raise, lift, modify, catch, ◌>>=◌, ◌>>◌}
use pycage.App.Json.{
  Json, Array, Dict, boolean, number, string, array, object, nil, item, empty, field, get, update,
  only_key,
}
use pycage.App.Process.{
  Process, Python, Run, Error, type_error, attribute_error, Report, Output, Failure, new_buffer,
  redirect, getvalue,
}
use pycage.App.Display.{execute, display}

abbrev pub pip_result_path : String
pip_result_path = "/.pycage-pip-result.json"

abbrev pub run_result_path : String
run_result_path = "/.pycage-run-result.json"

-- `isinstance(source, str) and isinstance(package, bool)`
abbrev pub is_module : Option Json → Option Json → Bool
is_module (some (string s)) (some (boolean b)) = true
is_module s b = false

-- An entry that `install_modules` accepts. `quoted` is `repr` of a text.
unfoldable pub check_entry :
    {X : Type 0} → (String → String) → String → Json → Result (Unit {0}) (Error X)
check_entry quoted name (object d) =
    if is_module (get "source" d) (get "package" d)
    then ok tt
    else err (type_error (concat "invalid module " (quoted name)))
check_entry quoted name j = err (type_error "invalid module entry")

-- The loop over the entries: the first that is refused ends it.
unfoldable pub check_entries : {X : Type 0} → (String → String) → Dict → Result (Unit {0}) (Error X)
check_entries quoted empty = ok tt
check_entries quoted (field k v d) =
    let rest = check_entries quoted d in
    elim (check_entry quoted k v) [ ok _ ↦ rest | err e ↦ err e ]

-- `decoded["pycage_pip_arguments"]` of a dict with that key alone, if it is a list
abbrev pub pip_arguments : Json → Option Json
pip_arguments (object d) =
    if only_key "pycage_pip_arguments" d
    then elim (get "pycage_pip_arguments" d) [
      | some (array js) ↦ some (array js)
      | some j ↦ none
      | none ↦ none
    ]
    else none
pip_arguments j = none

-- The elements of a list of texts.
texts_of : Array → Option (List String)
texts_of nil = some []
texts_of (item (string s) js) =
    let rest = texts_of js in elim rest [ none ↦ none | some l ↦ some (s ∷ l) ]
texts_of (item j js) = none

unfoldable pub texts : Json → Option (List String)
unfolding texts_of
texts (array js) = texts_of js
texts j = none

or_zero : Option ℕ → ℕ
or_zero none = 0
or_zero (some n) = n

-- `result`, once both buffers are read.
abbrev pub cell_report :
    {V W X : Type 0} → ℕ → ℕ → List (Output V) × Option Failure → Run V W X (Report V)
cell_report b c (outputs, error) = getvalue b >>= λ stdout. getvalue c >>= λ stderr.
    pure (record { outputs = outputs; stdout = stdout; stderr = stderr; error = error })

module _ {V W X E O : Type 0} (python : Python V W X E O) where
  -- `_encode_run_result`, and `_encode_pip_result`: the text is returned, and mirrored in a file.
  abbrev pub encode_run_result : Report V → Run V W X String
  encode_run_result report = python.dumps_report report >>= λ encoded.
      python.write_file run_result_path encoded >> pure encoded

  abbrev pub encode_pip_result : Dict → Run V W X String
  encode_pip_result result =
      let encoded = python.dumps (object result) in
      python.write_file pip_result_path encoded >> pure encoded

  -- The `try` of `run_code`, whose result is the outputs, or the error of the report.
  abbrev pub guarded : ℕ → ℕ → String → Run V W X (List (Output V) × Option Failure)
  guarded b c code =
      catch
        (redirect b c (python.install_requests_adapter >> execute python code)
          >>= display python
          >>= λ outputs. pure (outputs, none))
        (λ e. python.failure e >>= λ f. pure ([], some f))

  -- The report of a cell, from its buffers.
  report_cell : ℕ → ℕ → String → Run V W X String
  report_cell b c code = guarded b c code >>= λ left. cell_report b c left >>= encode_run_result

  -- `run_code`
  unfoldable pub run_code : String → Run V W X String
  unfolding report_cell
  run_code code s = let (b, s) = new_buffer s in let (c, s) = new_buffer s in report_cell b c code s

  pip_report : ℕ → ℕ → ℕ → Dict → Run V W X Dict
  pip_report b c code rest = getvalue b >>= λ stdout. getvalue c >>= λ stderr. pure (
      field "exit_code" (number (python.decimal code))
        (field "stdout" (string stdout) (field "stderr" (string stderr) rest)))

  run_pip : ℕ → ℕ → Option (List String) → Run V W X String
  unfolding pip_report or_zero
  run_pip b c none = raise (type_error "pip arguments must be a list of strings")
  run_pip b c (some arguments) = redirect b c (python.pip_main arguments) >>= λ code.
      pip_report b c (or_zero code) empty >>= encode_pip_result

  -- The `try` of `pip_install`.
  pip_guarded : ℕ → ℕ → String → Run V W X String
  unfolding run_pip pip_report
  pip_guarded b c arguments =
      catch (lift (python.loads arguments) >>= λ decoded. run_pip b c (texts decoded)) (λ e.
        python.describe e >>= λ message.
        pip_report b c 1 (field "error" (string message) empty) >>= encode_pip_result)

  -- `pip_install`
  unfoldable pub pip_install : String → Run V W X String
  unfolding pip_guarded
  pip_install arguments s =
      let (b, s) = new_buffer s in let (c, s) = new_buffer s in pip_guarded b c arguments s

  -- `_wheel_loader.modules.update(decoded)` once every entry is accepted
  update_modules : Json → Run V W X String
  update_modules (object d) =
      lift (check_entries python.quoted d)
      >> modify (λ s. record s { modules = update s.modules d })
      >> pure "{}"
  update_modules j = raise attribute_error

  install_decoded : Json → Run V W X String
  unfolding update_modules
  install_decoded decoded = elim (pip_arguments decoded) [
    | none ↦ update_modules decoded
    | some arguments ↦ pip_install (python.dumps arguments)
  ]

  -- `install_modules`
  unfoldable pub install_modules : String → Run V W X String
  unfolding install_decoded
  install_modules modules = catch (lift (python.loads modules) >>= install_decoded) (λ e.
      python.describe e >>= λ message.
      pure (python.dumps (object (field "error" (string message) empty))))

  -- `reset`
  unfoldable pub reset : Run V W X String
  reset s = (ok "{}", record s { globals = python.initial_globals })
