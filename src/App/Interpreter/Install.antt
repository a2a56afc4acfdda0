-- ===== src/App/Interpreter/Install.antt =====
-- `install_modules` is atomic, keeps a registry that can be imported, and what it installs is what
-- the import system then finds and runs.
use pycage.Prelude.{
  ℕ, ◌≡◌, refl, ◌⊎◌, inl, inr, Bool, Bool-cases, subst, List, true, String, Option, none, some,
  arith, str_eq, Option-cases, sym, ◌∙◌,
}
use pycage.Result.{Result, ok, err, Result-cases}
use pycage.Exec.{handle, lift, pure, ◌>>=◌}
use pycage.Exec.Keeps.{Keeps, >>=-Keeps, catch-Keeps}
use pycage.App.Json.{
  Json, Dict, empty, field, object, array, string, boolean, null, number, get, update,
}
use pycage.App.Json.Lookup.{last, get-update}
use pycage.App.Loader.Import.{IsModule}
use pycage.App.Process.{Process, Python, Run, Error, redirect, new_buffer, getvalue}
use pycage.App.Interpreter.{
  is_module, pip_result_path, check_entry, check_entries, pip_arguments, encode_pip_result, or_zero,
  texts, run_pip, pip_guarded, pip_report, pip_install, update_modules, install_decoded,
  install_modules,
}

-- Neither pip, nor the file system, nor the reading of an exception touches the registry of
-- modules.
pub record RegistryLaws {V W X E O : Type 0} (python : Python V W X E O) : Type 0 where
  pub describe-modules :
      (e : Error X) (s : Process V W) → (python.describe e s).1.modules ≡ s.modules
  pub pip-modules :
      (l : List String) (s : Process V W) → (python.pip_main l s).1.modules ≡ s.modules
  pub write-modules :
      (p t : String) (s : Process V W) → (python.write_file p t s).1.modules ≡ s.modules

-- A registry that every import can use.
abbrev pub IsLoadable : Dict → Type 0
IsLoadable d = (name : String) (entry : Json) → get name d ≡ some entry → IsModule entry

pub nothing-IsLoadable : IsLoadable empty
unfolding get
nothing-IsLoadable name j e = cc

is_module-cases :
    (s b : Option Json)
    → is_module s b ≡ true
    → (t : String) × (c : Bool) × (s ≡ some (string t)) × (b ≡ some (boolean c))
is_module-cases (some (string t)) (some (boolean c)) e = (t, c, refl, refl)
is_module-cases s b e = cc

check_entry-IsModule :
    {X : Type 0} (quoted : String → String) (name : String) (v : Json)
    → check_entry {X = X} quoted name v ≡ ok tt
    → IsModule v
unfolding check_entry
check_entry-IsModule quoted name (object d) e =
    let (t, c, p, q) = is_module-cases (get "source" d) (get "package" d) (ground arith) in
    record { dict = d; source = t; flag = c; is_dict = refl; has_source = p; has_flag = q }
check_entry-IsModule quoted name j e = cc

last-field :
    (name k : String) (w v : Json) (d : Dict)
    → last name (field k w d) ≡ some v
    → (last name d ≡ some v) ⊎ (w ≡ v)
last-field name k w v d e = elim (Option-cases (last name d)) [
  | inl n ↦ elim (Bool-cases (str_eq k name)) [
    | inl b ↦ inr (ground arith)
    | inr b ↦ absurd (ground arith)
  ]
  | inr (u, n) ↦ inl (ground arith)
]

pub check_entries-last :
    {X : Type 0} (quoted : String → String) (d : Dict) (name : String) (v : Json)
    → check_entries {X = X} quoted d ≡ ok tt
    → last name d ≡ some v
    → IsModule v
unfolding check_entries
check_entries-last quoted empty name v e q = cc
check_entries-last {X} quoted (field k w d) name v e q =
    elim (Result-cases (check_entry {X = X} quoted k w)) [
      | inl (_, p) ↦ elim (last-field name k w v d q) [
        | inl n ↦ check_entries-last {X = X} quoted d name v (ground arith) n
        | inr n ↦ subst IsModule n (check_entry-IsModule {X = X} quoted k w p)
      ]
      | inr (x, p) ↦ absurd (ground arith)
    ]

update-IsLoadable :
    {X : Type 0} (quoted : String → String) (d e : Dict)
    → IsLoadable d
    → check_entries {X = X} quoted e ≡ ok tt
    → IsLoadable (update d e)
update-IsLoadable {X} quoted d e good checked name entry q = elim (Option-cases (last name e)) [
  | inl n ↦ good name entry (ground (arith, get-update name d e))
  | inr (v, n) ↦
      check_entries-last {X = X} quoted e name entry checked (ground (arith, get-update name d e))
]

module _ {V W X E O : Type 0} (python : Python V W X E O) (laws : RegistryLaws python) where
  open laws use {describe-modules, pip-modules, write-modules}

  abbrev modules_of : Process V W → Dict
  modules_of s = s.modules

  -- What a call did: it left the registry alone, or it took a dict whole, every entry of which is
  -- fit.
  abbrev pub Atomic : Process V W → Result String (Error X) × Process V W → Type 0
  Atomic s r =
      (r.1.modules ≡ s.modules)
      ⊎ ((d : Dict) × (check_entries {X = X} python.quoted d ≡ ok tt)
          × (r.1.modules ≡ update s.modules d)
          × (r.0 ≡ ok "{}"))

  write-Keeps : (d : Dict) → Keeps modules_of (encode_pip_result python d)
  write-Keeps d =
      >>=-Keeps modules_of (python.write_file pip_result_path (python.dumps (object d)))
        (λ _. pure (python.dumps (object d)))
        (write-modules pip_result_path (python.dumps (object d))) (λ _ t. refl)

  pip_report-Keeps :
      (b c code : ℕ) (rest : Dict)
      → Keeps modules_of (pip_report python b c code rest >>= encode_pip_result python)
  unfolding pip_report
  pip_report-Keeps b c code rest =
      >>=-Keeps modules_of (pip_report python b c code rest) (encode_pip_result python)
        (>>=-Keeps modules_of (getvalue b) _ (λ s. refl)
          (λ stdout. >>=-Keeps modules_of (getvalue c) _ (λ s. refl) (λ stderr s. refl)))
        write-Keeps

  run_pip-Keeps : (b c : ℕ) (l : Option (List String)) → Keeps modules_of (run_pip python b c l)
  unfolding run_pip
  run_pip-Keeps b c none = λ s. refl
  run_pip-Keeps b c (some l) =
      >>=-Keeps modules_of (redirect b c (python.pip_main l))
        (λ code. pip_report python b c (or_zero code) empty >>= encode_pip_result python)
        (λ s. pip-modules l (record s { sys_stdout = b; sys_stderr = c }))
        (λ code. pip_report-Keeps b c (or_zero code) empty)

  pip_guarded-Keeps :
      (b c : ℕ) (arguments : String) → Keeps modules_of (pip_guarded python b c arguments)
  unfolding pip_guarded
  pip_guarded-Keeps b c arguments =
      catch-Keeps modules_of
        (lift (python.loads arguments) >>= λ decoded. run_pip python b c (texts decoded))
        (λ e. python.describe e >>= λ message.
          pip_report python b c 1 (field "error" (string message) empty)
          >>= encode_pip_result python)
        (>>=-Keeps modules_of (lift (python.loads arguments))
          (λ decoded. run_pip python b c (texts decoded)) (λ s. refl)
          (λ decoded. run_pip-Keeps b c (texts decoded)))
        (λ e.
          >>=-Keeps modules_of (python.describe e)
            (λ message.
              pip_report python b c 1 (field "error" (string message) empty)
              >>= encode_pip_result python)
            (describe-modules e)
            (λ message. pip_report-Keeps b c 1 (field "error" (string message) empty)))

  pub pip_install-Keeps : (arguments : String) → Keeps modules_of (pip_install python arguments)
  unfolding pip_install
  pip_install-Keeps arguments s =
      pip_guarded-Keeps (new_buffer s).0 (new_buffer (new_buffer s).1).0 arguments
        (new_buffer (new_buffer s).1).1

  update_modules-Atomic :
      (decoded : Json) (s : Process V W) → Atomic s (update_modules python decoded s)
  unfolding update_modules
  update_modules-Atomic (object d) s = elim (Result-cases (check_entries {X = X} python.quoted d)) [
    | inl (_, e) ↦ inr (d, e, ground arith, ground arith)
    | inr (x, e) ↦ inl (ground arith)
  ]
  update_modules-Atomic null s = inl refl
  update_modules-Atomic (boolean b) s = inl refl
  update_modules-Atomic (number n) s = inl refl
  update_modules-Atomic (string t) s = inl refl
  update_modules-Atomic (array js) s = inl refl

  install_decoded-Atomic :
      (decoded : Json) (s : Process V W) → Atomic s (install_decoded python decoded s)
  unfolding install_decoded
  install_decoded-Atomic decoded s = elim (Option-cases (pip_arguments decoded)) [
    | inl e ↦ rw (e, install_decoded) (update_modules-Atomic decoded s)
    | inr (js, e) ↦ rw (e, install_decoded) (inl (pip_install-Keeps (python.dumps js) s))
  ]

  -- The handler reads the exception, and keeps the registry.
  handle-Atomic :
      (f : Error X → Run V W X String) (s t : Process V W) (r : Result String (Error X))
      → ((e : Error X) → Keeps modules_of (f e))
      → Atomic s (r, t)
      → Atomic s (handle r f t)
  handle-Atomic f s t (ok a) k h = h
  handle-Atomic f s t (err e) k (inl h) = inl (k e t ∙ h)
  handle-Atomic f s t (err e) k (inr (d, c, m, r)) = absurd (ground arith)

  -- Where neither pip, nor the file system, nor the reading of an exception touches the registry,
  -- `install_modules` is atomic: the registry is as it was, whatever was raised, or every entry
  -- of a dict was accepted, and then all of them are in the registry and the answer is `{}`.
  pub install_modules-Atomic :
      (modules : String) (s : Process V W) → Atomic s (install_modules python modules s)
  unfolding install_modules
  install_modules-Atomic modules s = elim (Result-cases (python.loads modules)) [
    | inl (decoded, e) ↦ rw e (
        handle-Atomic answer s (install_decoded python decoded s).1
          (install_decoded python decoded s).0 answer-Keeps (install_decoded-Atomic decoded s))
    | inr (x, e) ↦ rw e (inl (answer-Keeps x s))
  ]
    where
      answer : Error X → Run V W X String
      answer e = python.describe e >>= λ message.
          pure (python.dumps (object (field "error" (string message) empty)))

      answer-Keeps : (e : Error X) → Keeps modules_of (answer e)
      answer-Keeps e =
          >>=-Keeps modules_of (python.describe e)
            (λ message. pure (python.dumps (object (field "error" (string message) empty))))
            (describe-modules e) (λ message s. refl)

  -- Under the same laws, a registry each of whose entries has a source and a package flag stays
  -- one, whatever text is installed.
  pub install_modules-IsLoadable :
      (modules : String) (s : Process V W)
      → IsLoadable s.modules
      → IsLoadable (install_modules python modules s).1.modules
  install_modules-IsLoadable modules s good = elim (install_modules-Atomic modules s) [
    | inl e ↦ subst IsLoadable (sym e) good
    | inr (d, c, e, r) ↦
        subst IsLoadable (sym e) (update-IsLoadable {X = X} python.quoted s.modules d good c)
  ]
