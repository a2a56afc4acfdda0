-- ===== src/App/Startup.antt =====
-- guest/app.py: what the module changes in the interpreter when it is imported, and the search for
-- a module that follows from it.
pub mod Mmap
pub mod Reading
pub mod Search
mod Examples
use pycage.Prelude.{
  ℕ, Bool, true, false, ◌||◌, String, Option, none, some, List, [], ◌∷◌, str_eq, if◌then◌else◌,
}
use pycage.Result.{Result, ok, err}
use pycage.Exec.{pure, ◌>>=◌}
use pycage.App.Process.{Process, Python, Run}
use pycage.App.Loader.{ModuleSpec, find_spec}

-- A finder of `sys.meta_path`, and what a finder finds: a spec of the registry, or the place that
-- another finder names.
pub data Finder : Type 0 where
  wheel_loader : Finder
  other : ℕ → Finder

pub data Found : Type 0 where
  registered : ModuleSpec → Found
  located : String → Found

pub data MmapModule : Type 0 where
  native_mmap stand_in : MmapModule

-- `os`, `socket`, `sys.modules["mmap"]`, `sys.meta_path` and `sys.path`; `none` is an attribute or
-- a module that is missing.
pub record Interpreter (W : Type 0) : Type 0 where
  pub getuid : Option ℕ
  pub umask : Option (ℕ → ℕ)
  pub chmod : Option (String → ℕ → W → W)
  pub has_ipv6 : Bool
  pub mmap : Option MmapModule
  pub meta_path : List Finder
  pub sys_path : List String

-- `if not hasattr(…): … = v`
abbrev pub or_else : {A : Type 0} → A → Option A → Option A
or_else v none = some v
or_else v (some a) = some a

abbrev pub has_path : String → List String → Bool
has_path p [] = false
has_path p (q ∷ qs) = str_eq q p || has_path p qs

abbrev pub site_packages : String
site_packages = "/site-packages"

-- `os` and `socket`; 18 is `0o022`.
abbrev pub set_os : {W : Type 0} → Interpreter W → Interpreter W
set_os i = record i {
  getuid = or_else 0 i.getuid;
  umask = or_else (λ mask. 18) i.umask;
  chmod = or_else (λ path mode w. w) i.chmod;
  has_ipv6 = false;
}

abbrev pub set_mmap : {W : Type 0} → Interpreter W → Interpreter W
set_mmap i = record i { mmap = or_else stand_in i.mmap }

abbrev pub set_paths : {W : Type 0} → Interpreter W → Interpreter W
set_paths i = record i {
  meta_path = wheel_loader ∷ i.meta_path;
  sys_path = if has_path site_packages i.sys_path then i.sys_path else site_packages ∷ i.sys_path;
}

-- The import of the module.
unfoldable pub startup : {W : Type 0} → Interpreter W → Interpreter W
startup i = set_paths (set_mmap (set_os i))

module _ {V W X E O : Type 0} (python : Python V W X E O)
    (others : ℕ → List String → String → Run V W X (Option Found)) where
  abbrev pub as_registered : Option ModuleSpec → Option Found
  as_registered none = none
  as_registered (some spec) = some (registered spec)

  abbrev pub find_with : Finder → List String → String → Run V W X (Option Found)
  find_with wheel_loader path name = find_spec python name >>= λ o. pure (as_registered o)
  find_with (other n) path name = others n path name

  -- The import system asks the finders in their order, up to the first that finds the module; the
  -- other finders may read `sys.path`.
  abbrev pub search : List Finder → List String → String → Run V W X (Option Found)
  search [] path name = pure none
  search (f ∷ fs) path name =
      let rest = search fs path name in
      find_with f path name >>= λ o. elim o [ none ↦ rest | some found ↦ pure (some found) ]
