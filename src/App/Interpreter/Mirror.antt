-- ===== src/App/Interpreter/Mirror.antt =====
-- What the interpreter returns is mirrored in its result files.
use pycage.Prelude.{ℕ, ◌≡◌, Option, none, some, List, String, arith, inl, inr}
use pycage.Result.{Result, ok, err, Result-cases}
use pycage.Exec.{continue, handle, lift, catch, ◌>>=◌}
use pycage.App.Json.{Dict, object, field, empty, string}
use pycage.App.Process.{Process, Python, Run, Error, Report, new_buffer, redirect}
use pycage.App.Interpreter.{
  pip_result_path, run_result_path, encode_run_result, encode_pip_result, guarded, cell_report,
  report_cell, run_code, or_zero, texts, pip_report, run_pip, pip_guarded, pip_install,
}

-- A write of a file that returns has left its text there.
pub record FileLaws {V W X E O : Type 0} (python : Python V W X E O) : Type 0 where
  pub content : Process V W → String → Option String
  pub write-content :
      (p t : String) (s : Process V W)
      → (python.write_file p t s).0 ≡ ok tt
      → content (python.write_file p t s).1 p ≡ some t

module _ {V W X E O : Type 0} (python : Python V W X E O) (laws : FileLaws python) where
  open laws use {content, write-content}

  -- A text that was returned is in the file.
  abbrev pub Mirrors : String → Result String (Error X) × Process V W → Type 0
  Mirrors path r = (text : String) → r.0 ≡ ok text → content r.1 path ≡ some text

  bind-Mirrors :
      {A : Type 0} (path : String) (m : Run V W X A) (f : A → Run V W X String)
      → ((a : A) (t : Process V W) → Mirrors path (f a t))
      → (s : Process V W) → Mirrors path ((m >>= f) s)
  bind-Mirrors {A} path m f h s = go (m s).0 (m s).1
    where
      go : (r : Result A (Error X)) (t : Process V W) → Mirrors path (continue r f t)
      go (ok a) t = h a t
      go (err e) t = λ text q. cc

  catch-Mirrors :
      (path : String) (m : Run V W X String) (f : Error X → Run V W X String)
      → ((s : Process V W) → Mirrors path (m s))
      → ((e : Error X) (t : Process V W) → Mirrors path (f e t))
      → (s : Process V W) → Mirrors path (catch m f s)
  catch-Mirrors path m f g h s = go (m s).0 (m s).1 (g s)
    where
      go :
          (r : Result String (Error X)) (t : Process V W)
          → Mirrors path (r, t)
          → Mirrors path (handle r f t)
      go (ok a) t k = k
      go (err e) t k = h e t

  encode_run-Mirrors :
      (r : Report V) (t : Process V W) → Mirrors run_result_path (encode_run_result python r t)
  encode_run-Mirrors r t text e = elim (Result-cases (python.dumps_report r t).0) [
    | inl (x, p) ↦
        elim (Result-cases (python.write_file run_result_path x (python.dumps_report r t).1).0) [
          | inl (_, q) ↦ ground (arith, write-content run_result_path x (python.dumps_report r t).1)
          | inr (y, q) ↦ absurd (ground arith)
        ]
    | inr (y, p) ↦ absurd (ground arith)
  ]

  encode_pip-Mirrors :
      (d : Dict) (t : Process V W) → Mirrors pip_result_path (encode_pip_result python d t)
  encode_pip-Mirrors d t text e =
      elim (Result-cases (python.write_file pip_result_path (python.dumps (object d)) t).0) [
        | inl (_, q) ↦ ground (arith, write-content pip_result_path (python.dumps (object d)) t)
        | inr (y, q) ↦ absurd (ground arith)
      ]

  -- Where a write of a file that returns has left its text there, a text that `run_code` returns
  -- is the content of its result file.
  pub run_code-Mirrors :
      (code : String) (s : Process V W) → Mirrors run_result_path (run_code python code s)
  unfolding run_code report_cell
  run_code-Mirrors code s =
      bind-Mirrors run_result_path
        (guarded python (new_buffer s).0 (new_buffer (new_buffer s).1).0 code)
        (λ left.
          cell_report (new_buffer s).0 (new_buffer (new_buffer s).1).0 left
          >>= encode_run_result python)
        (λ left.
          bind-Mirrors run_result_path
            (cell_report (new_buffer s).0 (new_buffer (new_buffer s).1).0 left)
            (encode_run_result python) encode_run-Mirrors)
        (new_buffer (new_buffer s).1).1

  run_pip-Mirrors :
      (b c : ℕ) (l : Option (List String)) (s : Process V W)
      → Mirrors pip_result_path (run_pip python b c l s)
  unfolding run_pip
  run_pip-Mirrors b c none s = λ text e. absurd (ground arith)
  run_pip-Mirrors b c (some l) s =
      bind-Mirrors pip_result_path (redirect b c (python.pip_main l))
        (λ code. pip_report python b c (or_zero code) empty >>= encode_pip_result python)
        (λ code.
          bind-Mirrors pip_result_path (pip_report python b c (or_zero code) empty)
            (encode_pip_result python) encode_pip-Mirrors)
        s

  pip_guarded-Mirrors :
      (b c : ℕ) (arguments : String) (s : Process V W)
      → Mirrors pip_result_path (pip_guarded python b c arguments s)
  unfolding pip_guarded
  pip_guarded-Mirrors b c arguments s =
      catch-Mirrors pip_result_path
        (lift (python.loads arguments) >>= λ decoded. run_pip python b c (texts decoded))
        (λ e. python.describe e >>= λ message.
          pip_report python b c 1 (field "error" (string message) empty)
          >>= encode_pip_result python)
        (bind-Mirrors pip_result_path (lift (python.loads arguments))
          (λ decoded. run_pip python b c (texts decoded))
          (λ decoded. run_pip-Mirrors b c (texts decoded)))
        (λ e.
          bind-Mirrors pip_result_path (python.describe e)
            (λ message.
              pip_report python b c 1 (field "error" (string message) empty)
              >>= encode_pip_result python)
            (λ message.
              bind-Mirrors pip_result_path
                (pip_report python b c 1 (field "error" (string message) empty))
                (encode_pip_result python) encode_pip-Mirrors))
        s

  -- Where a write of a file that returns has left its text there, a text that `pip_install`
  -- returns is the content of its result file, also where pip raised.
  pub pip_install-Mirrors :
      (arguments : String) (s : Process V W)
      → Mirrors pip_result_path (pip_install python arguments s)
  unfolding pip_install
  pip_install-Mirrors arguments s =
      pip_guarded-Mirrors (new_buffer s).0 (new_buffer (new_buffer s).1).0 arguments
        (new_buffer (new_buffer s).1).1
