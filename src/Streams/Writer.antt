-- ===== src/Streams/Writer.antt =====
-- Each stream writer gives its handle back exactly once, whatever its owner calls before it is
-- collected.
use pycage.Prelude.{
  ℕ, suc, ◌+◌, ◌≡◌, refl, Option, none, some, List, [], ◌∷◌, arith, Option-cases, inl, inr,
}
use pycage.Streams.{StreamRuntime, StreamWriter, new_writer, write, exit_writer, collect_writer}

-- The calls of an owner.
pub data WriterCall (A : Type 0) : Type 0 where
  writes : List A → WriterCall A
  exits : WriterCall A

-- The count of the handles that the host got back: a write does not change it, a drop adds one.
pub record WriterLaws {H A : Type 0} (runtime : StreamRuntime H A) : Type 0 where
  pub drops : H → ℕ
  pub write-drops :
      (t x : ℕ) (b : List A) (h : H) → drops (runtime.stream_write t x b h).1 ≡ drops h
  pub drop-drops : (t x : ℕ) (h : H) → drops (runtime.stream_drop_writable t x h) ≡ suc (drops h)

module _ {H A : Type 0} (runtime : StreamRuntime H A) where
  -- An exception of a call is the owner's to handle, and the object is used on.
  unfoldable pub call_writer : StreamWriter H → WriterCall A → StreamWriter H
  call_writer r (writes b) = (write runtime b r).1
  call_writer r exits = exit_writer runtime r

  unfoldable pub call_writers : StreamWriter H → List (WriterCall A) → StreamWriter H
  call_writers r [] = r
  call_writers r (c ∷ cs) = call_writers (call_writer r c) cs

module _ {H A : Type 0} (runtime : StreamRuntime H A) (laws : WriterLaws runtime) where
  open laws use {drops}

  abbrev held : Option ℕ → ℕ
  held none = 0
  held (some x) = 1

  -- The finalizer is attached while the handle is held, and drops the same handle.
  record IsOwned (total : ℕ) (r : StreamWriter H) : Type 0 where
    same : r.finalizer ≡ r.handle
    balanced : drops r.host + held r.handle ≡ total

  call-IsOwned :
      (total : ℕ) (r : StreamWriter H) (c : WriterCall A)
      → IsOwned total r
      → IsOwned total (call_writer runtime r c)
  unfolding call_writer write exit_writer
  call-IsOwned total r (writes b) o = elim (Option-cases r.handle) [
    | inl e ↦ ground arith
    | inr (x, e) ↦ ground (arith, laws.write-drops r.type_ x b r.host)
  ]
  call-IsOwned total r exits o = elim (Option-cases r.handle) [
    | inl e ↦ ground arith
    | inr (x, e) ↦ ground (arith, laws.drop-drops r.type_ x r.host)
  ]

  calls-IsOwned :
      (total : ℕ) (r : StreamWriter H) (cs : List (WriterCall A))
      → IsOwned total r
      → IsOwned total (call_writers runtime r cs)
  unfolding call_writers
  calls-IsOwned total r [] o = o
  calls-IsOwned total r (c ∷ cs) o =
      calls-IsOwned total (call_writer runtime r c) cs (call-IsOwned total r c o)

  collect-drops :
      (total : ℕ) (r : StreamWriter H)
      → IsOwned total r
      → drops (collect_writer runtime r).host ≡ total
  unfolding collect_writer
  collect-drops total r o = elim (Option-cases r.handle) [
    | inl e ↦ ground arith
    | inr (x, e) ↦ ground (arith, laws.drop-drops r.type_ x r.host)
  ]

  -- Where a write gives no handle back and a drop gives one, whatever is called on a new writer,
  -- and in whatever order, once it has been collected the host has got its handle back exactly
  -- once.
  pub writer_drops_once :
      (t x : ℕ) (h : H) (cs : List (WriterCall A))
      → drops (collect_writer runtime (call_writers runtime (new_writer t x h) cs)).host
        ≡ suc (drops h)
  writer_drops_once t x h cs =
      collect-drops (suc (drops h)) (call_writers runtime (new_writer t x h) cs) (
        calls-IsOwned (suc (drops h)) (new_writer t x h) cs
          (record { same = refl; balanced = omega arith }))
