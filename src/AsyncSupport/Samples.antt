-- ===== src/AsyncSupport/Samples.antt =====
-- The world of the examples: waitables that are outstanding, and tasks that can still be spawned.
use pycage.Prelude.{
  ℕ, zero, suc, ◌+◌, ◌≤◌, ◌≡◌, refl, Bool, false, List, [], ◌∷◌, arith, ◌==◌, if◌then◌else◌, length,
  not, ◌&&◌, ◌||◌,
}
use Prim.Native.Nat.{max}

-- The waitables that are outstanding, whether task 1 has still to wait, and the tasks it can spawn.
pub record World : Type 0 where
  pub open_waitables : List ℕ
  pub has_waited : Bool
  pub spawns_left : ℕ

abbrev pub member : ℕ → List ℕ → Bool
member x [] = false
member x (y ∷ ys) = y == x || member x ys

abbrev pub greatest : List ℕ → ℕ
greatest [] = 0
greatest (y ∷ ys) = max y (greatest ys)

abbrev pub without : ℕ → List ℕ → List ℕ
without x [] = []
without x (y ∷ ys) = let rest = without x ys in if x == y then rest else y ∷ rest

pub member-greatest : (k : ℕ) (ys : List ℕ) → greatest ys ≤ k → member (suc k) ys ≡ false
member-greatest k [] h = refl
member-greatest k (y ∷ ys) h = ground (arith, member-greatest k ys)

pub member-without :
    (x y : ℕ) (ys : List ℕ) → member y (without x ys) ≡ (not (x == y) && member y ys)
member-without x y [] = ground arith
member-without x y (z ∷ ys) = ground (arith, member-without x y ys)

abbrev pub spawn_some : ℕ → List ℕ × ℕ
spawn_some zero = ([], 0)
spawn_some (suc n) = (2 ∷ [], n)

pub spawn_some-le : (n : ℕ) → (spawn_some n).1 + length (spawn_some n).0 ≤ n
spawn_some-le zero = omega arith
spawn_some-le (suc n) = omega arith
