-- ===== src/App/Startup/Reading.antt =====
-- The stand-in for `mmap` reads the whole file, or its start, and what it does to the descriptors.
use pycage.Prelude.{
  ℕ, zero, suc, ◌≡◌, ◌≢◌, refl, sym, ◌∙◌, ap, Bool, true, false, Option, none, some, List, arith,
  take, fun_ext, Option-cases, Bool-cases, inl, inr, if◌then◌else◌,
}
use pycage.Result.{Result, ok, err}
use pycage.Exec.{Exec, ◌>>◌}
use pycage.App.Startup.Mmap.{
  OpenFile, Descriptors, OsError, bad_descriptor, illegal_seek, is_a_directory, System, assign, dup,
  fdopen, seek_start, read, bound, part, read_file_descriptor,
}

-- What a caller gets: the bytes from the start of the file, wherever its offset was.
abbrev prefix : ℕ → List ℕ → List ℕ
prefix zero l = l
prefix (suc n) l = take (suc n) l

abbrev of_file : ℕ → OpenFile → Result (List ℕ) OsError
of_file length file =
    if file.directory
    then err is_a_directory
    else if file.seekable
    then (if file.readable then ok (prefix length file.content) else err bad_descriptor)
    else err illegal_seek

abbrev of_descriptor : ℕ → Option ℕ → Descriptors → Result (List ℕ) OsError
of_descriptor length none s = err bad_descriptor
of_descriptor length (some i) s = of_file length (s.files i)

-- The descriptor is one of a folder.
abbrev is_folder : Option ℕ → Descriptors → Bool
is_folder none s = false
is_folder (some i) s = (s.files i).directory

-- One more descriptor is open, for the file `o`.
pub record Leaks (o : Option ℕ) (table table' : ℕ → Option ℕ) : Type 0 where
  pub leaked : ℕ
  pub was_free : table leaked ≡ none
  pub is_open : table' leaked ≡ o
  pub others : (n : ℕ) → n ≢ leaked → table' n ≡ table n

pub record Reads (d length : ℕ) (s : Descriptors) (r : Result (List ℕ) OsError × Descriptors)
    : Type 0 where
  pub outcome : r.0 ≡ of_descriptor length (s.table d) s
  pub restored : is_folder (s.table d) s ≡ false → r.1.table ≡ s.table
  pub leaking : is_folder (s.table d) s ≡ true → Leaks (s.table d) s.table r.1.table
  pub contents : (i : ℕ) → (r.1.files i).content ≡ (s.files i).content

assign-back :
    (k : ℕ) (v : Option ℕ) (f : ℕ → Option ℕ) → f k ≡ none → assign k none (assign k v f) ≡ f
assign-back k v f e = fun_ext (λ n. ground (arith, ap f))

assign-same : {A : Type 0} (k : ℕ) (v : A) (f : ℕ → A) → assign k v f k ≡ v
assign-same k v f = ground arith

seek_start-ok :
    (k i : ℕ) (s : Descriptors)
    → s.table k ≡ some i
    → (s.files i).seekable ≡ true
    → seek_start k s
      ≡ (ok tt, record s { files = assign i (record (s.files i) { offset = 0 }) s.files })
unfolding seek_start
seek_start-ok k i s e h = ground arith

seek_start-err :
    (k i : ℕ) (s : Descriptors)
    → s.table k ≡ some i
    → (s.files i).seekable ≡ false
    → seek_start k s ≡ (err illegal_seek, s)
unfolding seek_start
seek_start-err k i s e h = ground arith

module _ (system : System) where
  -- What is read through a duplicate of a file that can seek.
  pub record ReadsStart (k i : ℕ) (n : Option ℕ) (s : Descriptors)
      (r : Result (List ℕ) OsError × Descriptors) : Type 0 where
    pub outcome : r.0 ≡ ok (part n (s.files i).content)
    pub descriptors : r.1.table ≡ s.table
    pub contents : (j : ℕ) → (r.1.files j).content ≡ (s.files j).content

  read-ReadsStart :
      (k i : ℕ) (n : Option ℕ) (s : Descriptors)
      → s.table k ≡ some i
      → (s.files i).offset ≡ 0
      → (s.files i).readable ≡ true
      → ReadsStart k i n s (read system k n s)
  unfolding read
  read-ReadsStart k i n s e z readable = record {
    outcome = ground arith;
    descriptors = ground arith;
    contents = λ j. ground arith;
  }

  -- The descriptors once a duplicate of `d`, whose file is `i`, has been made.
  abbrev duplicated : ℕ → Descriptors → Descriptors
  duplicated i s = record s { table = assign (system.free s.table) (some i) s.table }

  abbrev rewound : ℕ → Descriptors → Descriptors
  rewound i s = record s { files = assign i (record (s.files i) { offset = 0 }) s.files }

  abbrev closed : ℕ → Result (List ℕ) OsError × Descriptors → Result (List ℕ) OsError × Descriptors
  closed k r = (r.0, record r.1 { table = assign k none r.1.table })

  body_of : ℕ → ℕ → Exec Descriptors OsError (List ℕ)
  body_of k length = seek_start k >> read system k (bound length)

  opened :
      (d length i : ℕ) (s : Descriptors)
      → s.table d ≡ some i
      → (s.files i).directory ≡ false
      → read_file_descriptor system d length s
        ≡ closed (system.free s.table) (body_of (system.free s.table) length (duplicated i s))
  unfolding read_file_descriptor dup fdopen body_of
  opened d length i s e plain = ground arith

  refused :
      (d length i : ℕ) (s : Descriptors)
      → s.table d ≡ some i
      → (s.files i).directory ≡ true
      → read_file_descriptor system d length s ≡ (err is_a_directory, duplicated i s)
  unfolding read_file_descriptor dup fdopen
  refused d length i s e folder = ground arith

  read-err :
      (k i : ℕ) (n : Option ℕ) (s : Descriptors)
      → s.table k ≡ some i
      → (s.files i).readable ≡ false
      → read system k n s ≡ (err bad_descriptor, s)
  unfolding read
  read-err k i n s e h = ground arith

  body-ok :
      (k length i : ℕ) (s : Descriptors)
      → s.table k ≡ some i
      → (s.files i).seekable ≡ true
      → body_of k length s ≡ read system k (bound length) (rewound i s)
  unfolding body_of
  body-ok k length i s e h = rw (seek_start-ok k i s e h) refl

  body-err :
      (k length i : ℕ) (s : Descriptors)
      → s.table k ≡ some i
      → (s.files i).seekable ≡ false
      → body_of k length s ≡ (err illegal_seek, s)
  unfolding body_of
  body-err k length i s e h = rw (seek_start-err k i s e h) refl

  prefix-part : (length : ℕ) (l : List ℕ) → part (bound length) l ≡ prefix length l
  prefix-part zero l = refl
  prefix-part (suc n) l = refl

module _ (system : System) (d length i : ℕ) (s : Descriptors)
    (free : s.table (system.free s.table) ≡ none) (e : s.table d ≡ some i) where
  abbrev k : ℕ
  k = system.free s.table

  abbrev t : Descriptors
  t = duplicated system i s

  folder-Reads : (s.files i).directory ≡ true → Reads d length s (err is_a_directory, t)
  folder-Reads folder = record {
    outcome = ground arith;
    restored = λ q. ground arith;
    leaking = λ q. record {
      leaked = k;
      was_free = free;
      is_open = assign-same k (some i) s.table ∙ sym e;
      others = λ n apart. ground arith;
    };
    contents = λ j. refl;
  }

  seekable-Reads :
      (s.files i).directory ≡ false
      → (s.files i).seekable ≡ true
      → Reads d length s (closed system k (read system k (bound length) (rewound system i t)))
  seekable-Reads plain h = elim (Bool-cases (s.files i).readable) [
    | inl readable ↦
        let r =
          read-ReadsStart system k i (bound length) (rewound system i t)
            (assign-same k (some i) s.table) (ground arith) (ground arith) in
        record {
          outcome = r.outcome ∙ ground (arith, prefix-part system length (s.files i).content);
          restored = λ q. ap (assign k none) r.descriptors ∙ assign-back k (some i) s.table free;
          leaking = λ q. absurd (ground arith);
          contents = λ j. r.contents j ∙ ground arith;
        }
    | inr unreadable ↦
        rw
          (read-err system k i (bound length) (rewound system i t) (assign-same k (some i) s.table)
            (ground arith))
          (record {
            outcome = ground arith;
            restored = λ q. assign-back k (some i) s.table free;
            leaking = λ q. absurd (ground arith);
            contents = λ j. ground arith;
          })
  ]

  file-Reads :
      (s.files i).directory ≡ false → Reads d length s (read_file_descriptor system d length s)
  file-Reads plain = elim (Bool-cases (s.files i).seekable) [
    | inl h ↦
        rw
          (
            opened system d length i s e plain,
            body-ok system k length i t (assign-same k (some i) s.table) h,
          )
          (seekable-Reads plain h)
    | inr h ↦
        rw
          (
            opened system d length i s e plain,
            body-err system k length i t (assign-same k (some i) s.table) h,
          )
          (record {
            outcome = ground arith;
            restored = λ q. assign-back k (some i) s.table free;
            leaking = λ q. absurd (ground arith);
            contents = λ j. refl;
          })
  ]

-- Where the descriptor that the system gives to a duplicate is free, `_read_file_descriptor`
-- returns the first `length` bytes of the file, or all of them for 0, wherever its offset was. It
-- raises for a descriptor that is not open, for one of a folder, for one that cannot seek, and for
-- one that can but is not open for reading. The contents of the files are afterwards what they were,
-- and the descriptors too, except for a folder: its duplicate, which was free, stays open then.
pub read_file_descriptor-Reads :
    (system : System) (d length : ℕ) (s : Descriptors)
    → s.table (system.free s.table) ≡ none
    → Reads d length s (read_file_descriptor system d length s)
unfolding read_file_descriptor dup
read_file_descriptor-Reads system d length s free = elim (Option-cases (s.table d)) [
  | inl e ↦ record {
    outcome = ground arith;
    restored = λ q. ground arith;
    leaking = λ q. absurd (ground arith);
    contents = λ i. ground arith;
  }
  | inr (i, e) ↦ elim (Bool-cases (s.files i).directory) [
    | inl folder ↦
        rw (refused system d length i s e folder) (folder-Reads system d length i s free e folder)
    | inr plain ↦ file-Reads system d length i s free e plain
  ]
]
