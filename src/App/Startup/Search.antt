-- ===== src/App/Startup/Search.antt =====
-- A module of the registry is found before any other of its name.
use pycage.Prelude.{ℕ, ◌≡◌, String, Option, none, some, List, [], ◌∷◌, ◌⊎◌}
use pycage.Result.{ok}
use pycage.App.Json.{Json, boolean, get}
use pycage.App.Loader.Import.{IsModule}
use pycage.App.Process.{Process, Python, Run}
use pycage.App.Startup.{Found, registered, Interpreter, startup, search}

-- The path names this folder.
abbrev pub Among : String → List String → Type 0
Among p [] = ⊥
Among p (q ∷ qs) = (q ≡ p) ⊎ Among p qs

-- The path `old` with `p` in it: as it was, if `p` was in it, and else with `p` in front.
pub data ExtendedBy (p : String) (old : List String) : List String → Type 0 where
  was_there : Among p old → ExtendedBy p old old
  in_front : ¬ Among p old → ExtendedBy p old (p ∷ old)

-- What the startup has made of the search for a module, given the entry of the registry, and of the
-- search path.
abbrev pub Searches :
    {V W X E O : Type 0}
    → Python V W X E O
    → (ℕ → List String → String → Run V W X (Option Found))
    → Interpreter W
    → String
    → Process V W
    → Type 0
Searches python others i name s =
    ((entry : Json) (m : IsModule entry)
      → get name s.modules ≡ some entry
      → search python others (startup i).meta_path (startup i).sys_path name s
        ≡ (ok (some (registered (record { name = name; is_package = boolean m.flag }))), s))
    × (get name s.modules ≡ none
        → (path : List String) × ExtendedBy "/site-packages" i.sys_path path
          × (search python others (startup i).meta_path (startup i).sys_path name s
              ≡ search python others i.meta_path path name s))
