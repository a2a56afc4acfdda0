-- ===== src/App/Interpreter/Restores.antt =====
-- What a cell cannot change: the interpreter's streams, and a part of the process that programs
-- leave alone.
use pycage.Prelude.{ℕ, refl, String, Option, none, some, List, [], ◌∷◌}
use pycage.Exec.{pure, ◌>>=◌, ◌>>◌}
use pycage.Exec.Keeps.{Keeps, >>=-Keeps, catch-Keeps}
use pycage.App.Json.{Dict}
use pycage.App.Process.{
  Process, Python, Run, Error, Report, Statement, Output, Failure, redirect, new_buffer, getvalue,
}
use pycage.App.Display.{execute, exec_body, eval_last, pop_expression, display}
use pycage.App.Display.Showing.{DisplayLaws, display-Keeps}
use pycage.App.Interpreter.{
  run_result_path, encode_run_result, cell_report, guarded, report_cell, run_code,
}

-- Nor do the reading of an exception and the encoding of a report change the view.
pub record ReportLaws {V W X E O C : Type 0} (python : Python V W X E O) (view : Process V W → C)
    : Type 0 where
  pub showing : DisplayLaws python view
  pub failure-view : (e : Error X) → Keeps view (python.failure e)
  pub dumps-view : (r : Report V) → Keeps view (python.dumps_report r)
  pub write-view : (p t : String) → Keeps view (python.write_file p t)

-- `sys.stdout` and `sys.stderr`
abbrev pub streams_of : {V W : Type 0} → Process V W → ℕ × ℕ
streams_of s = (s.sys_stdout, s.sys_stderr)

abbrev pub modules_of : {V W : Type 0} → Process V W → Dict
modules_of s = s.modules

module _ {V W X E O C : Type 0} (python : Python V W X E O) (view : Process V W → C)
    (laws : ReportLaws python view) where
  abbrev body : ℕ → ℕ → String → Run V W X (Option V)
  body b c code = redirect b c (python.install_requests_adapter >> execute python code)

  guarded-Keeps :
      (b c : ℕ) (code : String) → Keeps view (body b c code) → Keeps view (guarded python b c code)
  guarded-Keeps b c code kept =
      catch-Keeps view (body b c code >>= display python >>= λ outputs. pure (outputs, none))
        (λ e. python.failure e >>= λ f. pure ([], some f))
        (>>=-Keeps view (body b c code >>= display python) (λ outputs. pure (outputs, none))
          (>>=-Keeps view (body b c code) (display python) kept
            (display-Keeps python view laws.showing))
          (λ outputs s. refl))
        (λ e.
          >>=-Keeps view (python.failure e) (λ f. pure ([], some f)) (laws.failure-view e)
            (λ f s. refl))

  encode-Keeps : (r : Report V) → Keeps view (encode_run_result python r)
  encode-Keeps r =
      >>=-Keeps view (python.dumps_report r)
        (λ encoded. python.write_file run_result_path encoded >> pure encoded) (laws.dumps-view r)
        (λ encoded.
          >>=-Keeps view (python.write_file run_result_path encoded) (λ _. pure encoded)
            (laws.write-view run_result_path encoded) (λ _ s. refl))

  cell_report-Keeps :
      (b c : ℕ) (left : List (Output V) × Option Failure)
      → Keeps view (cell_report {X = X} b c left)
  cell_report-Keeps b c (outputs, error) =
      >>=-Keeps view (getvalue b) _ (λ s. refl)
        (λ stdout. >>=-Keeps view (getvalue c) _ (λ s. refl) (λ stderr s. refl))

  report_cell-Keeps :
      (b c : ℕ) (code : String)
      → Keeps view (body b c code)
      → Keeps view (report_cell python b c code)
  unfolding report_cell
  report_cell-Keeps b c code kept =
      >>=-Keeps view (guarded python b c code)
        (λ left. cell_report b c left >>= encode_run_result python) (guarded-Keeps b c code kept)
        (λ left.
          >>=-Keeps view (cell_report b c left) (encode_run_result python)
            (cell_report-Keeps b c left) encode-Keeps)

-- Where neither the showing of a value, nor the reading of an exception, nor the encoding and the
-- writing of a report replace the streams, both are after `run_code` what they were before,
-- whatever the program of the cell does to them, and also where it raises.
pub run_code-Keeps :
    {V W X E O : Type 0} (python : Python V W X E O) (laws : ReportLaws python streams_of)
    (code : String)
    → Keeps streams_of (run_code python code)
unfolding run_code
run_code-Keeps python laws code s =
    let (b, s) = new_buffer s in
    let (c, s) = new_buffer s in report_cell-Keeps python streams_of laws b c code (λ t. refl) s

-- Programs leave the registry alone.
pub record ProgramLaws {V W X E O : Type 0} (python : Python V W X E O) : Type 0 where
  pub reporting : ReportLaws python modules_of
  pub parse-modules : (code : String) → Keeps modules_of (python.parse code)
  pub exec-modules : (body : List (Statement E O)) → Keeps modules_of (python.exec body)
  pub eval-modules : (e : E) → Keeps modules_of (python.eval e)
  pub adapter-modules : Keeps modules_of python.install_requests_adapter

module _ {V W X E O : Type 0} (python : Python V W X E O) (laws : ProgramLaws python) where
  exec_body-Keeps : (body : List (Statement E O)) → Keeps modules_of (exec_body python body)
  exec_body-Keeps [] = λ s. refl
  exec_body-Keeps (x ∷ body) = laws.exec-modules (x ∷ body)

  eval_last-Keeps : (last : Option E) → Keeps modules_of (eval_last python last)
  eval_last-Keeps none = λ s. refl
  eval_last-Keeps (some e) = laws.eval-modules e

  execute-Keeps : (code : String) → Keeps modules_of (execute python code)
  unfolding execute
  execute-Keeps code =
      >>=-Keeps modules_of (python.parse code)
        (λ body.
          exec_body python (pop_expression body).0 >> eval_last python (pop_expression body).1)
        (laws.parse-modules code)
        (λ body.
          >>=-Keeps modules_of (exec_body python (pop_expression body).0)
            (λ _. eval_last python (pop_expression body).1)
            (exec_body-Keeps (pop_expression body).0)
            (λ _. eval_last-Keeps (pop_expression body).1))

  -- A cell keeps the registry.
  pub run_code-modules : (code : String) → Keeps modules_of (run_code python code)
  unfolding run_code
  run_code-modules code s =
      let (b, s) = new_buffer s in
      let (c, s) = new_buffer s in
      report_cell-Keeps python modules_of laws.reporting b c code
        (λ t.
          >>=-Keeps modules_of python.install_requests_adapter (λ _. execute python code)
            laws.adapter-modules (λ _. execute-Keeps code)
            (record t { sys_stdout = b; sys_stderr = c }))
        s
