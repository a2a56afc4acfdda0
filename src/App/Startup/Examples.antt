-- ===== src/App/Startup/Examples.antt =====
-- A file that two descriptors share, and an interpreter that has none of what the startup sets.
use pycage.Prelude.{
  ℕ, ◌≡◌, refl, true, false, Option, none, some, List, [], ◌∷◌, String, ltb, if◌then◌else◌,
}
use pycage.Result.{ok}
use pycage.App.Startup.{Interpreter, other, site_packages, startup}
use pycage.App.Startup.Mmap.{
  OpenFile, Descriptors, System, dup, fdopen, seek_start, read, read_file_descriptor,
}
use pycage.App.Startup.Reading.{Reads, read_file_descriptor-Reads}

abbrev file : OpenFile
file = record {
  content = 7 ∷ 8 ∷ 9 ∷ [];
  offset = 2;
  seekable = true;
  readable = true;
  directory = false;
}

-- The descriptors 0 and 1 are open.
abbrev is_open : ℕ → Option ℕ
is_open n = if ltb n 2 then some 5 else none

abbrev descriptors : Descriptors
descriptors = record { table = is_open; files = λ i. file }

abbrev system : System
system = record { free = λ table. 2; read_ahead = λ f n. 3 }

mapped : (read_file_descriptor system 1 2 descriptors).0 ≡ ok (7 ∷ 8 ∷ [])
unfolding read_file_descriptor dup fdopen seek_start read
mapped = refl

-- The duplicate, 2, of a folder stays open.
folder_leaks :
    (read_file_descriptor system 1 2
        (record descriptors { files = λ i. record file { directory = true } })).1.table
      2
    ≡ some 5
unfolding read_file_descriptor dup fdopen seek_start read
folder_leaks = refl

read_file_descriptor-Reads_example :
    Reads 1 2 descriptors (read_file_descriptor system 1 2 descriptors)
read_file_descriptor-Reads_example = read_file_descriptor-Reads system 1 2 descriptors refl

abbrev interpreter : Interpreter (List (String × String))
interpreter = record {
  getuid = none;
  umask = none;
  chmod = none;
  has_ipv6 = true;
  mmap = none;
  meta_path = other 0 ∷ [];
  sys_path = "/lib" ∷ [];
}

path_set : (startup interpreter).sys_path ≡ site_packages ∷ "/lib" ∷ []
unfolding startup
path_set = refl
