-- ===== src/App/Json/Lookup.antt =====
-- What `get` finds after `put` and `update`.
use pycage.Prelude.{◌≡◌, refl, String, Option, none, some, arith, str_eq, eq_iff, if◌then◌else◌}
use pycage.App.Json.{Json, Dict, empty, field, get, put, update}

pub get-put :
    (k j : String) (v : Json) (d : Dict)
    → get j (put k v d) ≡ (if str_eq k j then some v else get j d)
unfolding get put
get-put k j v empty = refl
get-put k j v (field i w d) = ground (arith, eq_iff k j, eq_iff i k, eq_iff i j, get-put k j v d)

-- A dict with the last value of each key of another: what `update` should find.
abbrev pub last : String → Dict → Option Json
last j empty = none
last j (field k v e) = elim (last j e) [
  | none ↦ if str_eq k j then some v else none
  | some w ↦ some w
]

abbrev pub found : Option Json → Option Json → Option Json
found none w = w
found (some v) w = some v

pub get-update : (j : String) (d e : Dict) → get j (update d e) ≡ found (last j e) (get j d)
unfolding update
get-update j d empty = refl
get-update j d (field k v e) =
    ground (arith, eq_iff k j, get-update j (put k v d) e, get-put k j v d)
