-- ===== src/Agent/Examples.antt =====
-- A server whose cells come to their own text, and whose globals are the cells that have run.
use pycage.Prelude.{
  ℕ, zero, suc, ◌≡◌, ◌≢◌, refl, String, Option, none, some, List, [], ◌∷◌, ◌++◌, length, arith, ap,
}
use pycage.Result.{Result, ok, err}
use pycage.Agent.{Execution, Sdk, Client}
use pycage.Agent.Transcript.{ContextLaws}

abbrev Cells : Type 0
Cells = List String

record Server : Type 0 where
  default_cells : Cells
  contexts : List Cells

abbrev nth : ℕ → List Cells → Option Cells
nth i [] = none
nth zero (g ∷ gs) = some g
nth (suc i) (g ∷ gs) = nth i gs

abbrev replace : ℕ → Cells → List Cells → List Cells
replace i h [] = []
replace zero h (g ∷ gs) = h ∷ gs
replace (suc i) h (g ∷ gs) = g ∷ replace i h gs

abbrev cells_of : Server → Option ℕ → Option Cells
cells_of s none = some s.default_cells
cells_of s (some i) = nth i s.contexts

abbrev with_cells : Server → Option ℕ → Cells → Server
with_cells s none g = record s { default_cells = g }
with_cells s (some i) g = record s { contexts = replace i g s.contexts }

abbrev run_cell : String → Cells → Execution × Cells
run_cell code g = (
  record { logs = record { stdout = code ∷ []; stderr = [] }; error = none; text = none },
  code ∷ g,
)

abbrev answer : Server → Option ℕ → String → Option Cells → Result Execution (Unit {0}) × Server
answer s c code none = (err tt, s)
answer s c code (some g) = (ok (run_cell code g).0, with_cells s c (run_cell code g).1)

abbrev sdk : Sdk Server ℕ (Unit {0})
sdk = record {
  run_code = λ b code c s. answer s c code (cells_of s c);
  create_code_context =
      λ b s. (ok (length s.contexts), record s { contexts = s.contexts ++ [] ∷ [] });
}

nth-replace :
    (i : ℕ) (g h : Cells) (gs : List Cells) → nth i gs ≡ some g → nth i (replace i h gs) ≡ some h
nth-replace i g h [] e = cc
nth-replace zero g h (x ∷ gs) e = refl
nth-replace (suc i) g h (x ∷ gs) e = nth-replace i g h gs e

nth-replace_ne : (i j : ℕ) (h : Cells) (gs : List Cells) → j ≢ i → nth j (replace i h gs) ≡ nth j gs
nth-replace_ne i j h [] n = refl
nth-replace_ne zero zero h (x ∷ gs) n = absurd (n refl)
nth-replace_ne zero (suc j) h (x ∷ gs) n = refl
nth-replace_ne (suc i) zero h (x ∷ gs) n = refl
nth-replace_ne (suc i) (suc j) h (x ∷ gs) n = nth-replace_ne i j h gs (λ e. n (ap suc e))

nth-length : (gs : List Cells) → nth (length gs) gs ≡ none
nth-length [] = refl
nth-length (g ∷ gs) = nth-length gs

nth-append : (gs : List Cells) → nth (length gs) (gs ++ [] ∷ []) ≡ some []
nth-append [] = refl
nth-append (g ∷ gs) = nth-append gs

nth-append_before :
    (i : ℕ) (g : Cells) (gs : List Cells) → nth i gs ≡ some g → nth i (gs ++ [] ∷ []) ≡ some g
nth-append_before i g [] e = cc
nth-append_before zero g (x ∷ gs) e = e
nth-append_before (suc i) g (x ∷ gs) e = nth-append_before i g gs e

run-eval :
    (code : String) (c : Option ℕ) (s : Server) (g : Cells)
    → cells_of s c ≡ some g
    → ((answer s c code (cells_of s c)).0 ≡ ok (run_cell code g).0)
      × (cells_of (answer s c code (cells_of s c)).1 c ≡ some (run_cell code g).1)
run-eval code none s g e = ground (arith, e)
run-eval code (some i) s g e = rw e (refl, nth-replace i g (code ∷ g) s.contexts e)

with_cells-others :
    (c d : Option ℕ) (s : Server) (g : Cells) → d ≢ c → cells_of (with_cells s c g) d ≡ cells_of s d
with_cells-others none none s g n = absurd (n refl)
with_cells-others none (some j) s g n = refl
with_cells-others (some i) none s g n = refl
with_cells-others (some i) (some j) s g n = nth-replace_ne i j g s.contexts (λ e. n (ap some e))

run-others :
    (code : String) (c d : Option ℕ) (s : Server)
    → d ≢ c
    → cells_of (answer s c code (cells_of s c)).1 d ≡ cells_of s d
run-others code c d s n = go (cells_of s c)
  where
    go : (o : Option Cells) → cells_of (answer s c code o).1 d ≡ cells_of s d
    go none = refl
    go (some g) = with_cells-others c d s (code ∷ g) n

create-others :
    (d : Option ℕ) (s : Server) (g : Cells)
    → cells_of s d ≡ some g
    → cells_of (record s { contexts = s.contexts ++ [] ∷ [] }) d ≡ some g
create-others none s g e = e
create-others (some i) s g e = nth-append_before i g s.contexts e

abbrev laws : ContextLaws sdk Cells
laws = record {
  address = "http://127.0.0.1:49999";
  globals = cells_of;
  eval = run_cell;
  fresh = [];
  run-eval = λ b code c s g u. run-eval code c s g;
  run-others = λ b code c d s. run-others code c d s;
  create-fresh = λ b s u. (length s.contexts, refl, nth-length s.contexts, nth-append s.contexts);
  create-others = λ b s d g. create-others d s g;
}

abbrev client : Client Server
client = record { server = record { default_cells = []; contexts = [] }; printed = [] }
