-- ===== src/Agent/Transcript.antt =====
-- What `main` prints on a server that keeps its contexts apart.
use Prim.Native.String.{◌++◌ as concat}
use pycage.Prelude.{◌≡◌, ◌≢◌, String, Option, none, some, List, [], ◌∷◌, ◌++◌}
use pycage.Result.{ok}
use pycage.Agent.{
  CellError, Execution, Sandbox, Sdk, factorial_cell, readings_cell, mean_cell, division_cell,
  sum_cell, lookup_cell,
}

-- What the server at this address promises: a cell is evaluated in the globals of its context, those of the default
-- one if it names none, and leaves the globals of every other context alone; a context that is
-- created is new, and has fresh globals.
pub record ContextLaws {S Context X : Type 0} (sdk : Sdk S Context X) (G : Type 0) : Type 0 where
  pub address : String
  pub globals : S → Option Context → Option G
  pub eval : String → G → Execution × G
  pub fresh : G
  pub run-eval :
      (b : Sandbox) (code : String) (c : Option Context) (s : S) (g : G)
      → b.connection_config.sandbox_url ≡ address
      → globals s c ≡ some g
      → ((sdk.run_code b code c s).0 ≡ ok (eval code g).0)
        × (globals (sdk.run_code b code c s).1 c ≡ some (eval code g).1)
  pub run-others :
      (b : Sandbox) (code : String) (c d : Option Context) (s : S)
      → d ≢ c
      → globals (sdk.run_code b code c s).1 d ≡ globals s d
  pub create-fresh :
      (b : Sandbox) (s : S)
      → b.connection_config.sandbox_url ≡ address
      → (c : Context) × ((sdk.create_code_context b s).0 ≡ ok c)
        × (globals s (some c) ≡ none)
        × (globals (sdk.create_code_context b s).1 (some c) ≡ some fresh)
  pub create-others :
      (b : Sandbox) (s : S) (d : Option Context) (g : G)
      → globals s d ≡ some g
      → globals (sdk.create_code_context b s).1 d ≡ some g

abbrev pub each : String → List String → List String
each prefix [] = []
each prefix (t ∷ ts) = concat prefix t ∷ each prefix ts

abbrev pub error_line : Option CellError → List String
error_line none = []
error_line (some e) = concat "error : " (concat e.name (concat ": " (concat e.value "\n"))) ∷ []

abbrev pub result_line : Option String → List String
result_line none = []
result_line (some t) = concat "result: " (concat t "\n") ∷ []

module _ {S Context X G : Type 0} {sdk : Sdk S Context X} (laws : ContextLaws sdk G) where
  open laws use {globals, eval, fresh}

  -- The lines of a cell that are printed: its label, each chunk of its standard output and of its
  -- standard error, its error by name and value, and the text of its result.
  abbrev pub lines_of : String → Execution → List String
  lines_of label execution =
      concat "\n--- " (concat label " ---\n")
      ∷ (each "stdout: " execution.logs.stdout
          ++ (each "stderr: " execution.logs.stderr
              ++ (error_line execution.error ++ result_line execution.text)))

  -- Each cell sees what the cells before it have left, also behind one that failed; the last sees
  -- fresh globals.
  abbrev pub transcript : G → List String
  transcript g =
      let (computed, g) = eval factorial_cell g in
      let (_, g) = eval readings_cell g in
      let (mean, g) = eval mean_cell g in
      let (failed, g) = eval division_cell g in
      let (alive, g) = eval sum_cell g in
      lines_of "compute" computed
      ++ (lines_of "stateful follow-up" mean
          ++ (lines_of "recoverable error" failed
              ++ (lines_of "still alive" alive ++ lines_of "isolation" (eval lookup_cell fresh).0)))
