-- ===== src/Streams/Reader.antt =====
-- Each stream reader gives its handle back exactly once, whatever its owner calls before it is
-- collected.
use pycage.Prelude.{
  ℕ, suc, ◌+◌, ◌≡◌, refl, Option, none, some, List, [], ◌∷◌, arith, Option-cases, inl, inr,
}
use pycage.Streams.{StreamRuntime, StreamReader, new_reader, read, exit_reader, collect_reader}

-- The calls of an owner.
pub data ReaderCall : Type 0 where
  reads : ℕ → ReaderCall
  exits : ReaderCall

-- The count of the handles that the host got back: a read does not change it, a drop adds one.
pub record ReaderLaws {H A : Type 0} (runtime : StreamRuntime H A) : Type 0 where
  pub drops : H → ℕ
  pub read-drops : (t x n : ℕ) (h : H) → drops (runtime.stream_read t x n h).1 ≡ drops h
  pub drop-drops : (t x : ℕ) (h : H) → drops (runtime.stream_drop_readable t x h) ≡ suc (drops h)

module _ {H A : Type 0} (runtime : StreamRuntime H A) where
  -- An exception of a call is the owner's to handle, and the object is used on.
  unfoldable pub call_reader : StreamReader H → ReaderCall → StreamReader H
  call_reader r (reads n) = (read runtime n r).1
  call_reader r exits = exit_reader runtime r

  unfoldable pub call_readers : StreamReader H → List (ReaderCall) → StreamReader H
  call_readers r [] = r
  call_readers r (c ∷ cs) = call_readers (call_reader r c) cs

module _ {H A : Type 0} (runtime : StreamRuntime H A) (laws : ReaderLaws runtime) where
  open laws use {drops}

  abbrev held : Option ℕ → ℕ
  held none = 0
  held (some x) = 1

  -- The finalizer is attached while the handle is held, and drops the same handle.
  record IsOwned (total : ℕ) (r : StreamReader H) : Type 0 where
    same : r.finalizer ≡ r.handle
    balanced : drops r.host + held r.handle ≡ total

  call-IsOwned :
      (total : ℕ) (r : StreamReader H) (c : ReaderCall)
      → IsOwned total r
      → IsOwned total (call_reader runtime r c)
  unfolding call_reader read exit_reader
  call-IsOwned total r (reads n) o = elim (Option-cases r.handle) [
    | inl e ↦ ground arith
    | inr (x, e) ↦ ground (arith, laws.read-drops r.type_ x n r.host)
  ]
  call-IsOwned total r exits o = elim (Option-cases r.handle) [
    | inl e ↦ ground arith
    | inr (x, e) ↦ ground (arith, laws.drop-drops r.type_ x r.host)
  ]

  calls-IsOwned :
      (total : ℕ) (r : StreamReader H) (cs : List (ReaderCall))
      → IsOwned total r
      → IsOwned total (call_readers runtime r cs)
  unfolding call_readers
  calls-IsOwned total r [] o = o
  calls-IsOwned total r (c ∷ cs) o =
      calls-IsOwned total (call_reader runtime r c) cs (call-IsOwned total r c o)

  collect-drops :
      (total : ℕ) (r : StreamReader H)
      → IsOwned total r
      → drops (collect_reader runtime r).host ≡ total
  unfolding collect_reader
  collect-drops total r o = elim (Option-cases r.handle) [
    | inl e ↦ ground arith
    | inr (x, e) ↦ ground (arith, laws.drop-drops r.type_ x r.host)
  ]

  -- Where a read gives no handle back and a drop gives one, whatever is called on a new reader,
  -- and in whatever order, once it has been collected the host has got its handle back exactly
  -- once.
  pub reader_drops_once :
      (t x : ℕ) (h : H) (cs : List (ReaderCall))
      → drops (collect_reader runtime (call_readers runtime (new_reader t x h) cs)).host
        ≡ suc (drops h)
  reader_drops_once t x h cs =
      collect-drops (suc (drops h)) (call_readers runtime (new_reader t x h) cs) (
        calls-IsOwned (suc (drops h)) (new_reader t x h) cs
          (record { same = refl; balanced = omega arith }))
