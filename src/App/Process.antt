-- ===== src/App/Process.antt =====
-- The state of the guest process that guest/app.py works on, and what it asks of CPython, of pip
-- and of the file system. `None` is `none` where a Python value is expected.
use pycage.Prelude.{ℕ, zero, suc, Bool, String, Option, none, some, List, [], ◌∷◌, ◌++◌, length}
use pycage.Result.{Result, ok, err}
use pycage.Exec.{Exec, finally}
use pycage.App.Json.{Json, Dict}

-- The exceptions that the module raises itself, and those of what it calls.
pub data Error (X : Type 0) : Type 0 where
  type_error key_error : String → Error X
  attribute_error : Error X
  value_error : Error X
  raised : X → Error X

-- `modules` is the registry of `_wheel_loader`, and `buffers` holds every `io.StringIO`, or `none`
-- for one that was closed. `world`
-- is the rest of the process: the heap of the running programs and the file system.
pub record Process (V W : Type 0) : Type 0 where
  pub globals : List (String × V)
  pub modules : Dict
  pub sys_stdout : ℕ
  pub sys_stderr : ℕ
  pub buffers : List (Option String)
  pub world : W

abbrev pub Run : Type 0 → Type 0 → Type 0 → Type 0 → Type 0
Run V W X A = Exec (Process V W) (Error X) A

pub data Statement (E O : Type 0) : Type 0 where
  expr : E → Statement E O
  other : O → Statement E O

-- What the loader sets on a module that it executes.
pub record Module : Type 0 where
  pub name : String
  pub file : String
  pub path : List String

-- The error of a report.
pub record Failure : Type 0 where
  pub name : String
  pub message : String
  pub traceback : String

-- An item of the outputs: a rendering is a value of any type, or a text.
pub data Datum (V : Type 0) : Type 0 where
  value : V → Datum V
  literal : String → Datum V

pub data Kind : Type 0 where
  html svg json text : Kind

pub record Output (V : Type 0) : Type 0 where
  pub type_ : Kind
  pub datum : Datum V

pub record Report (V : Type 0) : Type 0 where
  pub outputs : List (Output V)
  pub stdout : String
  pub stderr : String
  pub error : Option Failure

-- Programs may do anything to the process. `getattr` finds a method of a value, `dumps`,
-- `dumps_value` and `dumps_report` are `json.dumps`, `failure` and `describe` read an exception
-- that was caught, `exec_source` is `exec(compile(…))` for a module, `quoted` is `repr` of a text,
-- and `is_zero` tells a zero among JSON's numbers.
pub record Python (V W X E O : Type 0) : Type 0 where
  pub parse : String → Run V W X (List (Statement E O))
  pub exec : List (Statement E O) → Run V W X (Unit {0})
  pub eval : E → Run V W X (Option V)
  pub getattr : V → Kind → Run V W X (Option V)
  pub call : V → Run V W X (Option V)
  pub is_str : V → Bool
  pub repr : V → Run V W X String
  pub is_exception : Error X → Bool
  pub failure : Error X → Run V W X Failure
  pub describe : Error X → Run V W X String
  pub loads : String → Result Json (Error X)
  pub dumps : Json → String
  pub dumps_value : V → Run V W X String
  pub dumps_report : Report V → Run V W X String
  pub write_file : String → String → Run V W X (Unit {0})
  pub install_requests_adapter : Run V W X Bool
  pub pip_main : List String → Run V W X (Option ℕ)
  pub initial_globals : List (String × V)
  pub exec_source : Module → String → String → Run V W X (Unit {0})
  pub read_file : String → Run V W X String
  pub isfile : String → Run V W X Bool
  pub listdir : String → Run V W X (List String)
  pub is_os_error : Error X → Bool
  pub quoted : String → String
  pub is_zero : String → Bool
  pub decimal : ℕ → String

-- `io.StringIO()`: its address, and the process that holds it.
abbrev pub new_buffer : {V W : Type 0} → Process V W → ℕ × Process V W
new_buffer s = (length s.buffers, record s { buffers = s.buffers ++ some "" ∷ [] })

module _ {V W X A : Type 0} where
  -- `with contextlib.redirect_stdout(b), contextlib.redirect_stderr(c): m`
  abbrev pub redirect : ℕ → ℕ → Run V W X A → Run V W X A
  redirect b c m s =
      finally m (λ t. record t { sys_stdout = s.sys_stdout; sys_stderr = s.sys_stderr })
        (record s { sys_stdout = b; sys_stderr = c })

get_elem : List (Option String) → ℕ → Option String
get_elem [] i = none
get_elem (x ∷ xs) zero = x
get_elem (x ∷ xs) (suc i) = get_elem xs i

-- The content of a buffer that is not closed.
unfoldable pub content_of : {V W : Type 0} → ℕ → Process V W → Option String
unfolding get_elem
content_of b s = get_elem s.buffers b

abbrev pub read_from : {X : Type 0} → Option String → Result String (Error X)
read_from none = err value_error
read_from (some t) = ok t

-- `b.getvalue()`, which raises for a buffer that is closed.
abbrev pub getvalue : {V W X : Type 0} → ℕ → Run V W X String
getvalue b s = (read_from (content_of b s), s)
