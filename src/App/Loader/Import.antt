-- ===== src/App/Loader/Import.antt =====
-- A registered module that has a source and a package flag can be imported.
use pycage.Prelude.{◌≡◌, Bool, String, some, [], ◌∷◌, arith, if◌then◌else◌}
use pycage.Result.{ok}
use pycage.App.Json.{Json, Dict, object, string, boolean, get}
use pycage.App.Process.{Process, Python, Module}
use pycage.App.Loader.{
  subscript, filename, dirname, truthy, find_spec, exec_text, exec_entry, exec_module,
}

-- An entry with a source and a package flag, each of its type.
pub record IsModule (entry : Json) : Type 0 where
  pub dict : Dict
  pub source : String
  pub flag : Bool
  pub is_dict : entry ≡ object dict
  pub has_source : get "source" dict ≡ some (string source)
  pub has_flag : get "package" dict ≡ some (boolean flag)

-- The module object that the loader fills in.
abbrev pub filled : String → Bool → Module
filled name is_package = record {
  name = name;
  file = filename name is_package;
  path = if is_package then dirname (filename name is_package) ∷ [] else [];
}

module _ {V W X E O : Type 0} (python : Python V W X E O) where
  -- Importing a registered module asks for nothing that its entry lacks.
  abbrev pub Imports : String → (source : String) → Bool → Process V W → Type 0
  Imports name source is_package s =
      (find_spec python name s
        ≡ (ok (some (record { name = name; is_package = boolean is_package })), s))
      × (exec_module python name s
          ≡ python.exec_source (filled name is_package) source (filename name is_package) s)

  pub registered-Imports :
      (name : String) (entry : Json) (s : Process V W) (m : IsModule entry)
      → get name s.modules ≡ some entry
      → Imports name m.source m.flag s
  unfolding find_spec exec_module exec_entry exec_text subscript truthy
  registered-Imports name entry s m e = (ground arith, ground arith)
