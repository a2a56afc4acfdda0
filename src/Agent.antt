-- ===== src/Agent.antt =====
-- examples/e2b-python/agent.py: a client that drives a local server by E2B's SDK. The SDK and the
-- environment are parameters; what is printed is a list of texts, one for each call of `print`.
pub mod Transcript
mod Examples
use Prim.Native.String.{◌++◌ as concat}
use pycage.Prelude.{
  Bool, true, false, String, Option, none, some, List, [], ◌∷◌, ◌++◌, map, str_eq, if◌then◌else◌,
}
use pycage.Exec.{Exec, pure, ◌>>=◌, ◌>>◌}

pub record Logs : Type 0 where
  pub stdout : List String
  pub stderr : List String

pub record CellError : Type 0 where
  pub name : String
  pub value : String

-- What the SDK gives back of a cell.
pub record Execution : Type 0 where
  pub logs : Logs
  pub error : Option CellError
  pub text : Option String

pub record ConnectionConfig : Type 0 where
  pub api_key : String
  pub sandbox_url : String
  pub debug : Bool

-- `Sandbox(…)`, with the text of its `Version`.
pub record Sandbox : Type 0 where
  pub sandbox_id : String
  pub sandbox_domain : Option String
  pub envd_version : String
  pub envd_access_token : Option String
  pub traffic_access_token : Option String
  pub connection_config : ConnectionConfig

abbrev pub or_default : Option String → String → String
or_default none d = d
or_default (some t) d = t

-- `token or other`: an empty token is none.
abbrev pub token_or : Option String → Option String → Option String
token_or none other = other
token_or (some t) other = if str_eq t "" then other else some t

-- `PYCAGE_URL`
abbrev pub pycage_url : (String → Option String) → String
pycage_url getenv = or_default (getenv "PYCAGE_URL") "http://127.0.0.1:49999"

unfoldable pub connect : (String → Option String) → String → Option String → Sandbox
connect getenv url token = record {
  sandbox_id = "pycage-local";
  sandbox_domain = none;
  envd_version = "0.2.0";
  envd_access_token = token_or token (getenv "PYCAGE_TOKEN");
  traffic_access_token = none;
  connection_config = record { api_key = "pycage-local"; sandbox_url = url; debug = true };
}

abbrev pub shown_error : Option CellError → List String
shown_error none = []
shown_error (some e) = concat "error : " (concat e.name (concat ": " (concat e.value "\n"))) ∷ []

abbrev pub shown_text : Option String → List String
shown_text none = []
shown_text (some t) = concat "result: " (concat t "\n") ∷ []

-- What `show` prints.
unfoldable pub show : String → Execution → List String
show label execution =
    concat "\n--- " (concat label " ---\n")
    ∷ (map (concat "stdout: ") execution.logs.stdout
        ++ (map (concat "stderr: ") execution.logs.stderr
            ++ (shown_error execution.error ++ shown_text execution.text)))

-- The cells of `main`.
abbrev pub factorial_cell : String
factorial_cell = "import math\nmath.factorial(20)"

abbrev pub readings_cell : String
readings_cell = "readings = [3, 1, 4, 1, 5, 9, 2, 6]"

abbrev pub mean_cell : String
mean_cell = concat "from fractions import Fraction\n" (
    concat "mean = Fraction(sum(readings), len(readings))\n"
      (concat "print(f'n={len(readings)} mean={float(mean):.3f}')\n" "mean"))

abbrev pub division_cell : String
division_cell = "1 / 0"

abbrev pub sum_cell : String
sum_cell = "sum(readings)"

abbrev pub secret_cell : String
secret_cell = "secret = 'context one only'"

abbrev pub lookup_cell : String
lookup_cell = "globals().get('secret', 'not visible here')"

-- The SDK over the state `S` of the server; `X` is what it raises.
pub record Sdk (S Context X : Type 0) : Type 0 where
  pub run_code : Sandbox → String → Option Context → Exec S X Execution
  pub create_code_context : Sandbox → Exec S X Context

pub record Client (S : Type 0) : Type 0 where
  pub server : S
  pub printed : List String

module _ {S Context X : Type 0} (sdk : Sdk S Context X) where
  abbrev pub on_server : {A : Type 0} → Exec S X A → Exec (Client S) X A
  on_server m k = ((m k.server).0, record k { server = (m k.server).1 })

  abbrev pub prints : List String → Exec (Client S) X (Unit {0})
  prints texts k = pure tt (record k { printed = k.printed ++ texts })

  unfoldable pub main : (String → Option String) → Exec (Client S) X (Unit {0})
  main getenv =
      let sandbox = connect getenv (pycage_url getenv) none in
      let run = λ (code : String) (context : Option Context).
        on_server (sdk.run_code sandbox code context) in
      run factorial_cell none >>= λ computed.
      prints (show "compute" computed)
      >> (run readings_cell none >>= λ _. run mean_cell none >>= λ mean.
          prints (show "stateful follow-up" mean)
          >> (run division_cell none >>= λ failed.
              prints (show "recoverable error" failed)
              >> (run sum_cell none >>= λ alive.
                  prints (show "still alive" alive)
                  >> (on_server (sdk.create_code_context sandbox) >>= λ first.
                      on_server (sdk.create_code_context sandbox) >>= λ second.
                      run secret_cell (some first) >>= λ _.
                      run lookup_cell (some second) >>= λ isolated.
                      prints (show "isolation" isolated)))))
