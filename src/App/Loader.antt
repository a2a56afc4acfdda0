-- ===== src/App/Loader.antt =====
-- guest/app.py, `_WheelLoader` and `_WheelResourceReader`: the registry of modules as an import
-- finder. What the import system does with a spec is CPython's.
pub mod Import
use Prim.Native.Char.{Char, code}
use Prim.Native.String.{◌++◌ as concat}
use pycage.Prelude.{
  ℕ, Bool, true, false, String, Option, none, some, List, [], ◌∷◌, ◌==◌, ◌&&◌, not, str_eq,
  if◌then◌else◌,
}
use pycage.Result.{Result, ok, err}
use pycage.Exec.{Exec, pure, raise, lift, gets, catch, ◌>>=◌}
use pycage.App.Json.{
  Json, Dict, Array, null, boolean, number, string, array, object, nil, item, empty, field, get,
}
use pycage.App.Process.{Process, Python, Run, Module, Error, key_error, type_error}

-- `importlib.util.spec_from_loader(fullname, self, is_package=…)`
pub record ModuleSpec : Type 0 where
  pub name : String
  pub is_package : Json

abbrev pub slash_char : Char
slash_char = "/"

slash : Char → Char
slash c = if code c == 46 then slash_char else c

-- `name.replace(".", "/")`
unfoldable pub replace_dots : String → String
unfolding slash
replace_dots String.[] = ""
replace_dots (String.◌∷◌ c s) = String.◌∷◌ (slash c) (replace_dots s)

-- `d[k]`
unfoldable pub subscript : {X : Type 0} → String → Json → Result Json (Error X)
subscript k (object d) = elim (get k d) [ none ↦ err (key_error k) | some v ↦ ok v ]
subscript k j = err (type_error "indices")

-- `modules.get(name)`, for the test `is None`: a value that is `null` is none.
abbrev pub not_null : Option Json → Option Json
not_null none = none
not_null (some null) = none
not_null (some entry) = some entry

abbrev pub entry_of : String → Dict → Option Json
entry_of name modules = not_null (get name modules)

-- The part of a path up to its last `/`, and a path without the `/` at its end.
head_of : String → Option String
head_of String.[] = none
head_of (String.◌∷◌ c s) = elim (head_of s) [
  | none ↦ if code c == 47 then some (String.◌∷◌ c String.[]) else none
  | some h ↦ some (String.◌∷◌ c h)
]

rstrip_slashes : String → String
rstrip_slashes String.[] = ""
rstrip_slashes (String.◌∷◌ c s) =
    let rest = rstrip_slashes s in if code c == 47 && str_eq rest "" then "" else String.◌∷◌ c rest

-- `os.path.dirname`
unfoldable pub dirname : String → String
unfolding head_of rstrip_slashes
dirname s = elim (head_of s) [
  | none ↦ ""
  | some h ↦ let stripped = rstrip_slashes h in if str_eq stripped "" then h else stripped
]

abbrev pub module_path : String → String
module_path name = replace_dots name

-- The name of the file that a module is compiled under.
abbrev pub filename : String → Bool → String
filename name is_package =
    if is_package
    then concat "/site-packages/" (concat (module_path name) "/__init__.py")
    else concat "/site-packages/" (concat (module_path name) ".py")

-- `_WheelResourceReader`
pub record WheelResourceReader : Type 0 where
  pub directory : String

abbrev pub new_resource_reader : String → WheelResourceReader
new_resource_reader fullname = record {
  directory = concat "/site-packages/" (replace_dots fullname);
}

abbrev pub resource_path : WheelResourceReader → String → String
resource_path r resource = concat r.directory (concat "/" resource)

module _ {V W X E O : Type 0} (python : Python V W X E O) where
  -- Whether a value counts as true in an `if`.
  truthy : Json → Bool
  truthy null = false
  truthy (boolean b) = b
  truthy (number n) = not (python.is_zero n)
  truthy (string s) = not (str_eq s "")
  truthy (array nil) = false
  truthy (array (item j js)) = true
  truthy (object empty) = false
  truthy (object (field k v d)) = true

  -- `_WheelLoader.find_spec`
  unfoldable pub find_spec : String → Run V W X (Option ModuleSpec)
  unfolding subscript
  find_spec fullname s = elim (entry_of fullname s.modules) [
    | none ↦ (ok none, s)
    | some entry ↦
        (lift (subscript "package" entry) >>= λ is_package.
        pure (some (record { name = fullname; is_package = is_package })))
          s
  ]

  -- `_WheelLoader.exec_module`, for the entry of the module: what is compiled has to be a text.
  exec_text : Module → Json → Run V W X (Unit {0})
  exec_text m (string source) = python.exec_source m source m.file
  exec_text m j = raise (type_error "compile")

  exec_entry : String → Json → Run V W X (Unit {0})
  unfolding truthy exec_text
  exec_entry name entry = lift (subscript "package" entry) >>= λ is_package.
      let file = filename name (truthy is_package) in
      let m : Module = record {
        name = name;
        file = file;
        path = if truthy is_package then dirname file ∷ [] else [];
      } in
      lift (subscript "source" entry) >>= exec_text m

  -- `_WheelLoader.exec_module`
  unfoldable pub exec_module : String → Run V W X (Unit {0})
  unfolding exec_entry
  exec_module name s = elim (get name s.modules) [
    | none ↦ (err (key_error name), s)
    | some entry ↦ exec_entry name entry s
  ]

  -- `_WheelLoader.get_resource_reader`
  unfoldable pub get_resource_reader : String → Run V W X (Option WheelResourceReader)
  unfolding truthy
  get_resource_reader fullname s = elim (entry_of fullname s.modules) [
    | none ↦ (ok none, s)
    | some entry ↦
        (lift (subscript "package" entry) >>= λ is_package.
        pure (if truthy is_package then some (new_resource_reader fullname) else none))
          s
  ]

  -- `_WheelLoader.get_data`, and the methods of `_WheelResourceReader` that ask the file system.
  abbrev pub get_data : String → Run V W X String
  get_data path = python.read_file path

  abbrev pub open_resource : WheelResourceReader → String → Run V W X String
  open_resource r resource = python.read_file (resource_path r resource)

  abbrev pub is_resource : WheelResourceReader → String → Run V W X Bool
  is_resource r name = python.isfile (resource_path r name)

  unfoldable pub contents : WheelResourceReader → Run V W X (List String)
  contents r =
      catch (python.listdir r.directory) (λ e. if python.is_os_error e then pure [] else raise e)
