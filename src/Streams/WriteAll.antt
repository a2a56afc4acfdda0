-- ===== src/Streams/WriteAll.antt =====
-- `write_all` ends, and its total says how much of the source the host has taken.
use pycage.Prelude.{
  drop-drop, if◌then◌else◌, ℕ, ◌+◌, ◌<◌, ◌≤◌, ◌≡◌, ◌≢◌, refl, sym, true, false, none, some, List,
  [], ◌∷◌, ◌++◌, ◌⊎◌, inl, inr, arith, length, take, drop, take-append-slice, append_assoc,
  append-nil, length-drop, ap, ◌∙◌, Bool-cases, Option-cases,
}
use pycage.Result.{Result, ok, err}
use pycage.Loop.{Next, Returns, Round, while_total}
use pycage.Streams.{
  StreamRuntime, StreamWriter, StreamFault, assertion_error, suspended, completed, dropped, write,
  write_all_round, write_all,
}

-- What the component model promises of a write to a stream that is answered: it completes or finds
-- the reader dropped, it takes a first part of the source, and of a source that is not empty a write
-- that completes takes at least one. A write that blocks has taken nothing yet.
pub record WriteLaws {H A : Type 0} (runtime : StreamRuntime H A) : Type 0 where
  pub delivered : H → List A
  pub write-code :
      (t x : ℕ) (b : List A) (h : H) (code n : ℕ)
      → (runtime.stream_write t x b h).0 ≡ some (code, n)
      → (code ≡ completed) ⊎ (code ≡ dropped)
  pub write-le :
      (t x : ℕ) (b : List A) (h : H) (code n : ℕ)
      → (runtime.stream_write t x b h).0 ≡ some (code, n)
      → n ≤ length b
  pub write-progress :
      (t x : ℕ) (b : List A) (h : H) (n : ℕ)
      → (runtime.stream_write t x b h).0 ≡ some (completed, n)
      → b ≢ []
      → 0 < n
  pub write-delivered :
      (t x : ℕ) (b : List A) (h : H) (code n : ℕ)
      → (runtime.stream_write t x b h).0 ≡ some (code, n)
      → delivered (runtime.stream_write t x b h).1 ≡ delivered h ++ take n b
  pub write-blocked :
      (t x : ℕ) (b : List A) (h : H)
      → (runtime.stream_write t x b h).0 ≡ none
      → delivered (runtime.stream_write t x b h).1 ≡ delivered h

module _ {H A : Type 0} (runtime : StreamRuntime H A) (laws : WriteLaws runtime) (source : List A)
    (w₀ : StreamWriter H) where
  open laws use {delivered}

  -- Between two rounds the total has been delivered, and the rest is left.
  record IsSending (l : List A × ℕ) (w : StreamWriter H) : Type 0 where
    in_range : l.1 ≤ length source
    rest : l.0 ≡ drop l.1 source
    so_far : delivered w.host ≡ delivered w₀.host ++ take l.1 source
    same_handle : w.handle ≡ w₀.handle

  -- How `write_all` ends.
  abbrev pub Sent : Result ℕ StreamFault → StreamWriter H → Type 0
  Sent (ok total) w =
      (total ≤ length source)
      × (delivered w.host ≡ delivered w₀.host ++ take total source)
      × ((total ≡ length source) ⊎ (w.reader_dropped ≡ true))
  Sent (err assertion_error) w = w₀.handle ≡ none
  Sent (err suspended) w =
      (total : ℕ) × (total < length source)
      × (delivered w.host ≡ delivered w₀.host ++ take total source)
      × (x : ℕ) × (g : H) × (runtime.stream_write w.type_ x (drop total source) g ≡ (none, w.host))

  -- The items that are left, and one more while the reader is there.
  abbrev left : List A × ℕ → StreamWriter H → ℕ
  left l w = length l.0 + (if w.reader_dropped then 0 else 1)

  abbrev Owed :
      List A × ℕ
      → StreamWriter H
      → Result (Next (List A × ℕ) ℕ) StreamFault
      → StreamWriter H
      → Type 0
  Owed l w r w' = Round IsSending Sent left (left l w) r w'

  module _ (x : ℕ) (a : A) (bs : List A) (total : ℕ) (w : StreamWriter H) (e : w.handle ≡ some x)
      (d : w.reader_dropped ≡ false) (i : IsSending (a ∷ bs, total) w) where
    -- A write of the rest of the source that is answered.
    answer_owes :
        (code count : ℕ)
        → (runtime.stream_write w.type_ x (a ∷ bs) w.host).0 ≡ some (code, count)
        → Owed
            (a ∷ bs, total)
            w
            (write_all_round runtime (a ∷ bs, total) w).0
            (write_all_round runtime (a ∷ bs, total) w).1
    unfolding write_all_round write
    answer_owes code count r = ground (
      arith,
      laws.write-code w.type_ x (a ∷ bs) w.host code count r,
      laws.write-le w.type_ x (a ∷ bs) w.host code count r,
      progress,
      laws.write-delivered w.type_ x (a ∷ bs) w.host code count r,
      length-drop total source,
      length-drop count (a ∷ bs),
      taken,
      dropped_more,
    )
      where
        progress : code ≡ completed → 0 < count
        progress c =
            laws.write-progress w.type_ x (a ∷ bs) w.host count (r ∙ ap (λ n. some (n, count)) c)
              (λ q. cc q)

        taken :
            (delivered w₀.host ++ take total source) ++ take count (a ∷ bs)
            ≡ delivered w₀.host ++ take (total + count) source
        taken =
            append_assoc (delivered w₀.host) (take total source) (take count (a ∷ bs))
            ∙ ap (λ l. delivered w₀.host ++ l)
                (ap (λ l. take total source ++ take count l) i.rest
                  ∙ take-append-slice total count (total + count) source refl)

        dropped_more : drop count (a ∷ bs) ≡ drop (total + count) source
        dropped_more = ap (drop count) i.rest ∙ drop-drop total count (total + count) source refl

    -- One that blocks.
    blocked_round :
        (runtime.stream_write w.type_ x (a ∷ bs) w.host).0 ≡ none
        → write_all_round runtime (a ∷ bs, total) w
          ≡ (err suspended, record w { host = (runtime.stream_write w.type_ x (a ∷ bs) w.host).1 })
    unfolding write_all_round write
    blocked_round r = ground arith

    block_owes :
        (runtime.stream_write w.type_ x (a ∷ bs) w.host).0 ≡ none
        → Owed
            (a ∷ bs, total)
            w
            (write_all_round runtime (a ∷ bs, total) w).0
            (write_all_round runtime (a ∷ bs, total) w).1
    block_owes r = rw (blocked_round r) (
      total,
      omega (arith, length-drop total source, ap length i.rest),
      laws.write-blocked w.type_ x (a ∷ bs) w.host r ∙ i.so_far,
      x,
      w.host,
      ap (λ l. runtime.stream_write w.type_ x l w.host) (sym i.rest)
          ∙ ap (λ y. (y, (runtime.stream_write w.type_ x (a ∷ bs) w.host).1)) r,
    )

  round_owes :
      (l : List A × ℕ) (w : StreamWriter H)
      → IsSending l w
      → Owed l w (write_all_round runtime l w).0 (write_all_round runtime l w).1
  round_owes ([], total) w i =
      unfold write_all_round in
      (i.in_range, i.so_far, inl (omega (arith, length-drop total source, ap length i.rest)))
  round_owes (a ∷ bs, total) w i = elim (Bool-cases w.reader_dropped) [
    | inl d ↦ unfold write_all_round in ground arith
    | inr d ↦ elim (Option-cases w.handle) [
      | inl e ↦ unfold write_all_round write in ground arith
      | inr (x, e) ↦ elim (Option-cases (runtime.stream_write w.type_ x (a ∷ bs) w.host).0) [
        | inl r ↦ block_owes x a bs total w e d i r
        | inr ((code, count), r) ↦ answer_owes x a bs total w e d i code count r
      ]
    ]
  ]

  -- Where a write that is answered completes or finds the reader dropped, takes a first part of what
  -- it is given, and of some items at least one if it completes, and a write that blocks has taken
  -- nothing yet, `write_all` with fuel above the length of the source and 1 comes to its end, or to
  -- a write that blocks. The total that it returns is the length of the part of the source that the
  -- host has taken, from its start, whole and once: all of it, or less where the reader is dropped.
  -- It raises an error of its own only for a writer that has given its handle back. Where it is left
  -- suspended, the host has taken a first part of the source, whole and once, but not all of it, and
  -- it is the write of the rest that blocks.
  pub write_all-Sent :
      (fuel : ℕ) → length source + 1 < fuel → Returns Sent (write_all runtime fuel source w₀)
  unfolding write_all
  write_all-Sent fuel enough =
      while_total IsSending Sent left (write_all_round runtime) round_owes fuel (source, 0) w₀
        (ground arith)
        (record {
          in_range = omega arith;
          rest = refl;
          so_far = sym (append-nil (delivered w₀.host));
          same_handle = refl;
        })
