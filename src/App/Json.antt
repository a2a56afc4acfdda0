-- ===== src/App/Json.antt =====
-- The values of Python's `json` module that guest/app.py reads and builds. A dict keeps its keys
-- in order.
pub mod Lookup
use pycage.Prelude.{
  Bool, true, false, String, Option, none, some, List, [], ◌∷◌, ◌&&◌, str_eq, if◌then◌else◌,
}

mutual
  pub data Json : Type 0 where
    null : Json
    boolean : Bool → Json
    number : String → Json
    string : String → Json
    array : Array → Json
    object : Dict → Json

  pub data Array : Type 0 where
    nil : Array
    item : Json → Array → Array

  pub data Dict : Type 0 where
    empty : Dict
    field : String → Json → Dict → Dict

-- `d.get(k)`
unfoldable pub get : String → Dict → Option Json
get k empty = none
get k (field j v d) = if str_eq j k then some v else get k d

-- `d[k] = v`
unfoldable pub put : String → Json → Dict → Dict
put k v empty = field k v empty
put k v (field j w d) = if str_eq j k then field j v d else field j w (put k v d)

-- `d.update(e)`
unfoldable pub update : Dict → Dict → Dict
update d empty = d
update d (field k v e) = update (put k v d) e

every_key : String → Dict → Bool
every_key k empty = true
every_key k (field j v d) = str_eq j k && every_key k d

-- `set(d) == {k}`
unfoldable pub only_key : String → Dict → Bool
unfolding every_key
only_key k empty = false
only_key k (field j v d) = str_eq j k && every_key k d
