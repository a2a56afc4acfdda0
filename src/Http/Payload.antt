-- ===== src/Http/Payload.antt =====
-- The payload of a request goes out whole, in writes that the host permits.
use pycage.Prelude.{
  ℕ, zero, suc, ◌+◌, ◌≤◌, ◌≡◌, refl, sym, List, [], ◌∷◌, ◌++◌, arith, length, drop, length-take,
  length-drop, append_assoc, append-nil, take-append-drop, inl, inr,
}
use pycage.Result.{Result, ok, Result-cases}
use pycage.Http.{Bytes, HttpHost, RequestError, write_size, chunks, write_chunks, write_payload}

flatten : List Bytes → Bytes
flatten [] = []
flatten (c ∷ cs) = c ++ flatten cs

Fit : List Bytes → Type 0
Fit [] = Unit
Fit (c ∷ cs) = (length c ≤ write_size) × Fit cs

chunks-Fit : (fuel : ℕ) (payload : Bytes) → Fit (chunks fuel payload)
unfolding chunks Fit
chunks-Fit zero payload = tt
chunks-Fit (suc fuel) [] = tt
chunks-Fit (suc fuel) (b ∷ payload) = (
  omega (arith, length-take write_size (b ∷ payload)),
  chunks-Fit fuel (drop write_size (b ∷ payload)),
)

flatten-chunks :
    (fuel : ℕ) (payload : Bytes) → length payload ≤ fuel → flatten (chunks fuel payload) ≡ payload
unfolding chunks flatten
flatten-chunks zero [] h = refl
flatten-chunks zero (b ∷ payload) h = absurd (omega arith)
flatten-chunks (suc fuel) [] h = refl
flatten-chunks (suc fuel) (b ∷ payload) h = ground (
  arith,
  flatten-chunks fuel (drop write_size (b ∷ payload)),
  length-drop write_size (b ∷ payload),
  take-append-drop write_size (b ∷ payload),
)

-- What `wasi:io/streams` documents: a write of at most 4096 bytes that succeeds has taken them
-- all. `drops` counts the output streams that the host got back.
pub record OutputLaws {H : Type 0} (host : HttpHost H) : Type 0 where
  pub written : H → Bytes
  pub drops : H → ℕ
  pub write-written :
      (o : ℕ) (b : Bytes) (h : H)
      → length b ≤ 4096
      → (host.blocking_write_and_flush o b h).0 ≡ ok tt
      → written (host.blocking_write_and_flush o b h).1 ≡ written h ++ b
  pub write-drops :
      (o : ℕ) (b : Bytes) (h : H) → drops (host.blocking_write_and_flush o b h).1 ≡ drops h
  pub drop-written : (o : ℕ) (h : H) → written (host.drop_output o h) ≡ written h
  pub drop-drops : (o : ℕ) (h : H) → drops (host.drop_output o h) ≡ suc (drops h)

module _ {H : Type 0} (host : HttpHost H) (laws : OutputLaws host) where
  open laws use {written, drops, write-written, write-drops, drop-written, drop-drops}

  -- What a statement has done: it has written these bytes if it did not raise, and it has given
  -- back so many streams.
  abbrev pub Wrote : ℕ → Bytes → H → Result (Unit {0}) RequestError × H → Type 0
  Wrote n b h r = (r.0 ≡ ok tt → written r.1 ≡ written h ++ b) × (drops r.1 ≡ n + drops h)

  write_chunks-Wrote :
      (o : ℕ) (cs : List Bytes) (h : H) → Fit cs → Wrote 0 (flatten cs) h (write_chunks host o cs h)
  unfolding write_chunks Fit flatten
  write_chunks-Wrote o [] h f = (λ e. sym (append-nil (written h)), omega arith)
  write_chunks-Wrote o (c ∷ cs) h f = elim (Result-cases (host.blocking_write_and_flush o c h).0) [
    | inl (_, e) ↦ ground (
      arith,
      write-written o c h,
      write-drops o c h,
      write_chunks-Wrote o cs (host.blocking_write_and_flush o c h).1 f.1,
      append_assoc (written h) c (flatten cs),
    )
    | inr (x, e) ↦ ground (arith, write-drops o c h)
  ]

  -- Where a write of at most 4096 bytes that succeeds has taken them all, a payload whose writing
  -- raises nothing is whole at the host, behind what it had; and in any case the host has got the
  -- stream back exactly once.
  pub write_payload-Wrote :
      (o : ℕ) (payload : Bytes) (h : H) → Wrote 1 payload h (write_payload host o payload h)
  unfolding write_payload
  write_payload-Wrote o payload h = ground (
    arith,
    write_chunks-Wrote o (chunks (length payload) payload) h (chunks-Fit (length payload) payload),
    flatten-chunks (length payload) payload (omega arith),
    drop-written o (write_chunks host o (chunks (length payload) payload) h).1,
    drop-drops o (write_chunks host o (chunks (length payload) payload) h).1,
  )
