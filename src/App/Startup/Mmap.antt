-- ===== src/App/Startup/Mmap.antt =====
-- guest/app.py, `_read_file_descriptor`: what stands in for `mmap.mmap` where the interpreter has
-- none.
use pycage.Prelude.{ℕ, zero, suc, Bool, Option, none, some, List, ◌==◌, take, drop, if◌then◌else◌}
use pycage.Result.{ok, err}
use pycage.Exec.{Exec, finally, ◌>>=◌, ◌>>◌}

-- An open file of the system, which several descriptors may share, its offset too.
pub record OpenFile : Type 0 where
  pub content : List ℕ
  pub offset : ℕ
  pub seekable : Bool
  pub readable : Bool
  pub directory : Bool

pub record Descriptors : Type 0 where
  pub table : ℕ → Option ℕ
  pub files : ℕ → OpenFile

pub data OsError : Type 0 where
  bad_descriptor illegal_seek is_a_directory : OsError

-- Which descriptor is free, and how far a buffered read goes ahead in the file, is up to the
-- system.
pub record System : Type 0 where
  pub free : (ℕ → Option ℕ) → ℕ
  pub read_ahead : OpenFile → Option ℕ → ℕ

abbrev pub assign : {A : Type 0} → ℕ → A → (ℕ → A) → ℕ → A
assign k v f n = if n == k then v else f n

-- The file of a descriptor.
abbrev file_of : ℕ → Exec Descriptors OsError ℕ
file_of d s = elim (s.table d) [ none ↦ (err bad_descriptor, s) | some i ↦ (ok i, s) ]

-- `os.dup`
unfoldable pub dup : System → ℕ → Exec Descriptors OsError ℕ
dup system d = file_of d >>= λ i s.
    let duplicate = system.free s.table in
    (ok duplicate, record s { table = assign duplicate (some i) s.table })

-- `os.fdopen` refuses a folder, and leaves its descriptor open then.
unfoldable pub fdopen : ℕ → Exec Descriptors OsError (Unit {0})
fdopen d =
    file_of d >>= λ i s. if (s.files i).directory then (err is_a_directory, s) else (ok tt, s)

-- `source.seek(0)`
unfoldable pub seek_start : ℕ → Exec Descriptors OsError (Unit {0})
seek_start d = file_of d >>= λ i s.
    if (s.files i).seekable
    then (ok tt, record s { files = assign i (record (s.files i) { offset = 0 }) s.files })
    else (err illegal_seek, s)

abbrev pub part : Option ℕ → List ℕ → List ℕ
part none l = l
part (some n) l = take n l

-- `source.read(n)`, with `none` for -1
unfoldable pub read : System → ℕ → Option ℕ → Exec Descriptors OsError (List ℕ)
read system d n = file_of d >>= λ i s.
    let file = s.files i in
    if file.readable
    then (
      ok (part n (drop file.offset file.content)),
      record s { files = assign i (record file { offset = system.read_ahead file n }) s.files },
    )
    else (err bad_descriptor, s)

-- `length if length else -1`
abbrev pub bound : ℕ → Option ℕ
bound zero = none
bound (suc n) = some (suc n)

-- `_read_file_descriptor`; the `with` closes the duplicate.
unfoldable pub read_file_descriptor : System → ℕ → ℕ → Exec Descriptors OsError (List ℕ)
unfolding dup fdopen seek_start read
read_file_descriptor system d length = dup system d >>= λ duplicate.
    fdopen duplicate
    >> finally (seek_start duplicate >> read system duplicate (bound length))
        (λ s. record s { table = assign duplicate none s.table })
