-- ===== src/Futures/Reader.antt =====
-- Each future reader gives its handle back exactly once, whatever its owner calls before it is
-- collected.
use pycage.Prelude.{
  ℕ, suc, ◌≡◌, refl, none, some, List, [], ◌∷◌, Option-cases, inl, inr, ◌⊎◌, ap, ◌∙◌,
}
use pycage.Futures.{
  FutureRuntime, FutureReader, new_reader, read_handle, read, exit_reader, collect_reader,
}

-- The calls of an owner.
pub data ReaderCall : Type 0 where
  reads : ReaderCall
  exits : ReaderCall

-- The count of the handles that the host got back: a read does not change it, a drop adds one.
pub record ReaderLaws {H A : Type 0} (runtime : FutureRuntime H A) : Type 0 where
  pub drops : H → ℕ
  pub read-drops : (t x : ℕ) (h : H) → drops (runtime.future_read t x h).1 ≡ drops h
  pub drop-drops : (t x : ℕ) (h : H) → drops (runtime.future_drop_readable t x h) ≡ suc (drops h)

module _ {H A : Type 0} (runtime : FutureRuntime H A) where
  -- An exception of a call is the owner's to handle, and the object is used on.
  unfoldable pub call_reader : FutureReader H → ReaderCall → FutureReader H
  call_reader r reads = (read runtime r).1
  call_reader r exits = exit_reader runtime r

  unfoldable pub call_readers : FutureReader H → List (ReaderCall) → FutureReader H
  call_readers r [] = r
  call_readers r (c ∷ cs) = call_readers (call_reader r c) cs

module _ {H A : Type 0} (runtime : FutureRuntime H A) (laws : ReaderLaws runtime) where
  open laws use {drops}

  -- A read of a handle that has blocked.
  abbrev pub Blocked : Type 0
  Blocked = (t : ℕ) × (x : ℕ) × (h : H) × ((runtime.future_read t x h).0 ≡ none)

  -- While the handle is held, the finalizer is attached, and drops the same handle; later, the
  -- handle has been given back, or has been lost with a read that blocked.
  data IsOwned (count : ℕ) (r : FutureReader H) : Type 0 where
    held :
        (x : ℕ) → r.handle ≡ some x → r.finalizer ≡ some x → drops r.host ≡ count → IsOwned count r
    returned : r.handle ≡ none → r.finalizer ≡ none → drops r.host ≡ suc count → IsOwned count r
    lost : Blocked → r.handle ≡ none → r.finalizer ≡ none → drops r.host ≡ count → IsOwned count r

  read-held :
      (count : ℕ) (r : FutureReader H) (x : ℕ)
      → r.handle ≡ some x
      → drops r.host ≡ count
      → IsOwned count (read runtime r).1
  unfolding read
  read-held count r x e n = elim (Option-cases (runtime.future_read r.type_ x r.host).0) [
    | inl b ↦
        rw (e, read_handle, b)
          (lost (r.type_, x, r.host, b) refl refl (laws.read-drops r.type_ x r.host ∙ n))
    | inr (a, b) ↦
        rw (e, read_handle, b)
          (returned refl refl (
            laws.drop-drops r.type_ x (runtime.future_read r.type_ x r.host).1
            ∙ ap suc (laws.read-drops r.type_ x r.host ∙ n)))
  ]

  read-IsOwned :
      (count : ℕ) (r : FutureReader H) → IsOwned count r → IsOwned count (read runtime r).1
  read-IsOwned count r (held x e f n) = read-held count r x e n
  read-IsOwned count r (returned e f n) = unfold read in rw e (returned refl refl n)
  read-IsOwned count r (lost b e f n) = unfold read in rw e (lost b refl refl n)

  exit-IsOwned :
      (count : ℕ) (r : FutureReader H) → IsOwned count r → IsOwned count (exit_reader runtime r)
  unfolding exit_reader
  exit-IsOwned count r (held x e f n) =
      rw e (returned refl refl (laws.drop-drops r.type_ x r.host ∙ ap suc n))
  exit-IsOwned count r (returned e f n) = rw e (returned refl f n)
  exit-IsOwned count r (lost b e f n) = rw e (lost b refl f n)

  calls-IsOwned :
      (count : ℕ) (r : FutureReader H) (cs : List (ReaderCall))
      → IsOwned count r
      → IsOwned count (call_readers runtime r cs)
  unfolding call_readers call_reader
  calls-IsOwned count r [] o = o
  calls-IsOwned count r (reads ∷ cs) o =
      calls-IsOwned count (read runtime r).1 cs (read-IsOwned count r o)
  calls-IsOwned count r (exits ∷ cs) o =
      calls-IsOwned count (exit_reader runtime r) cs (exit-IsOwned count r o)

  -- The host has got the handle back once, or never, with a read that blocked.
  abbrev pub Drops : ℕ → H → Type 0
  Drops count h = (drops h ≡ suc count) ⊎ (Blocked × (drops h ≡ count))

  collect-Drops :
      (count : ℕ) (r : FutureReader H)
      → IsOwned count r
      → Drops count (collect_reader runtime r).host
  unfolding collect_reader
  collect-Drops count r (held x e f n) = rw f (inl (laws.drop-drops r.type_ x r.host ∙ ap suc n))
  collect-Drops count r (returned e f n) = rw f (inl n)
  collect-Drops count r (lost b e f n) = rw f (inr (b, n))

  -- Where a read gives no handle back and a drop gives one, whatever is called on a new reader,
  -- and in whatever order, once it has been collected the host has got its handle back exactly
  -- once; or never, and then only where a read has blocked, which leaves the handle without an owner.
  pub future_reader_drops_once :
      (t x : ℕ) (h : H) (cs : List (ReaderCall))
      → Drops (drops h) (collect_reader runtime (call_readers runtime (new_reader t x h) cs)).host
  future_reader_drops_once t x h cs =
      collect-Drops (drops h) (call_readers runtime (new_reader t x h) cs)
        (calls-IsOwned (drops h) (new_reader t x h) cs (held x refl refl refl))
