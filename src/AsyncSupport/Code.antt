-- ===== src/AsyncSupport/Code.antt =====
-- The code that `_poll` answers the host with, and what the host reads out of it: the low four bits
-- say what to do, and the rest is the set to wait on.
use Prim.Native.Nat.{◌^◌, ◌/◌, ◌%◌, bit_or, bit_or-bitwise}
use pycage.Prelude.{
  ℕ, ◌+◌, ◌*◌, ◌<◌, ◌≡◌, refl, ◌⊎◌, inl, inr, Option, none, some, arith, Bool-cases, ◌==◌,
}
use pycage.Result.{ok}
use pycage.AsyncSupport.{Runtime, Active, callback_exit, callback_wait, wait_on, reply}

pub bit_or-wait : (set : ℕ) → bit_or 2 (set * 16) ≡ 2 + set * 16
bit_or-wait set = omega (arith, bit_or-bitwise 2 (set * 16))

module _ {W : Type 0} (runtime : Runtime W) where
  -- What the host reads: an exit of a call with no pending task, or a wait on the call's set.
  abbrev pub Decodes : Active W → ℕ → Type 0
  Decodes a code =
      (code < 2 ^ 32)
      × ((code % 16 ≡ callback_exit) × (a.tasks.pending_count ≡ 0)
          ⊎ (code % 16 ≡ callback_wait) × (a.tasks.waitable_set ≡ some (code / 16)))

  wait_on-Decodes :
      (o : Option ℕ) (a : Active W) (code : ℕ)
      → a.tasks.waitable_set ≡ o
      → ((set : ℕ) → o ≡ some set → set < 2 ^ 28)
      → (wait_on runtime o a).0 ≡ ok code
      → Decodes a code
  unfolding wait_on
  wait_on-Decodes none a code s small e = cc
  wait_on-Decodes (some set) a code s small e =
      let value : code ≡ 2 + set * 16 = ground (arith, bit_or-wait set) in
      let bound = small set refl in
      let same : set ≡ code / 16 = omega (arith, value) in
      (omega (arith, value, bound), inr (omega (arith, value), cc (s, same)))

  -- Where the call's set is below 2 ^ 28, the code that `_poll` answers with fits in 32 bits, and
  -- its low four bits and the rest of it tell the host an exit, with no task pending, or a wait on
  -- that set.
  pub reply-Decodes :
      (a : Active W) (code : ℕ)
      → ((set : ℕ) → a.tasks.waitable_set ≡ some set → set < 2 ^ 28)
      → (reply runtime a).0 ≡ ok code
      → Decodes a code
  unfolding reply
  reply-Decodes a code small e = elim (Bool-cases (a.tasks.pending_count == 0)) [
    | inl z ↦
        let zero : code ≡ 0 = ground arith in
        (omega (arith, zero), inl (omega (arith, zero), ground arith))
    | inr z ↦ wait_on-Decodes a.tasks.waitable_set a code refl small (ground arith)
  ]
