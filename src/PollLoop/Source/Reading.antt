-- ===== src/PollLoop/Source/Reading.antt =====
-- `Stream.next` ends, loses no byte, and gives each of its handles back to the host once.
use pycage.Prelude.{
  ℕ, suc, ◌+◌, ◌≤◌, ◌<◌, ◌≡◌, ◌≢◌, refl, Bool, true, false, Option, none, some, List, [], ◌∷◌, ◌++◌,
  arith, if◌then◌else◌, length, inl, inr, ◌⊎◌, Bool-cases, ◌∙◌, ap,
}
use pycage.Result.{Result, ok, err, Result-cases}
use pycage.Loop.{Next, Returns, Round, while_total}
use pycage.Wasi.Io.{StreamError, closed, last_operation_failed}
use pycage.PollLoop.Source.{InputStream, Stream, on_error, read_size, next_round, next}

-- What `wasi:io/streams` documents of an input stream: a read hands over the next bytes, no more
-- than were asked for, and loses none when it fails; after a wait the next read has bytes or
-- fails. The count of the handles that the host got back goes up by one with `exit` and with
-- `finish`.
pub record InputLaws {H Byte : Type 0} (input : InputStream H Byte) : Type 0 where
  pub incoming : H → List Byte
  pub ready : H → Bool
  pub returned : H → ℕ
  pub read-incoming :
      (h : H) (n : ℕ) (b : List Byte)
      → (input.read n h).0 ≡ ok b
      → (length b ≤ n) × (incoming h ≡ b ++ incoming (input.read n h).1)
  pub read-failed :
      (h : H) (n : ℕ) (e : StreamError)
      → (input.read n h).0 ≡ err e
      → incoming (input.read n h).1 ≡ incoming h
  pub read-ready : (h : H) (n : ℕ) → 0 < n → ready h ≡ true → (input.read n h).0 ≢ ok []
  pub read-returned : (h : H) (n : ℕ) → returned (input.read n h).1 ≡ returned h
  pub wait-incoming : (h : H) → incoming (input.wait h).1 ≡ incoming h
  pub wait-ready : (h : H) → (input.wait h).0 ≡ ok tt → ready (input.wait h).1 ≡ true
  pub wait-returned : (h : H) → returned (input.wait h).1 ≡ returned h
  pub exit-incoming : (h : H) → incoming (input.exit h) ≡ incoming h
  pub exit-returned : (h : H) → returned (input.exit h) ≡ suc (returned h)
  pub finish-incoming : (h : H) → incoming (input.finish h) ≡ incoming h
  pub finish-returned : (h : H) → returned (input.finish h) ≡ suc (returned h)

abbrev pub held_bit : Bool → ℕ
held_bit b = if b then 1 else 0

-- The handles that the object holds.
abbrev pub held : {H : Type 0} → Stream H → ℕ
held s = held_bit s.body + held_bit s.stream

module _ {H Byte : Type 0} (input : InputStream H Byte) (laws : InputLaws input)
    (s₀ : Stream H) where
  open laws use {
    incoming, ready, returned, read-incoming, read-failed, read-ready, read-returned, wait-incoming,
    wait-ready, wait-returned, exit-incoming, exit-returned, finish-incoming, finish-returned,
  }

  -- The handles that are held and those that were given back are those that there were.
  abbrev pub IsBalanced : Stream H → Type 0
  IsBalanced s = held s + returned s.host ≡ held s₀ + returned s₀.host

  -- The host has just answered a read, or the wait for one, with this error.
  abbrev pub Said : StreamError → H → Type 0
  Said e t = (h : H) × ((input.read read_size h ≡ (err e, t)) ⊎ (input.wait h ≡ (err e, t)))

  abbrev pub WasAtEnd : Type 0
  WasAtEnd = (s₀.stream ≡ false) ⊎ ((t : H) × Said closed t)

  record IsReading (l : Unit {0}) (s : Stream H) : Type 0 where
    nothing_lost : incoming s.host ≡ incoming s₀.host
    balanced : IsBalanced s
    together : s.stream ≡ false → s.body ≡ false
    was_at_end : s.stream ≡ false → WasAtEnd

  -- What has been done when `next` returns or raises.
  abbrev pub Read : Result (Option (List Byte)) StreamError → Stream H → Type 0
  Read (ok none) s =
      WasAtEnd
      × (s.stream ≡ false)
      × (s.body ≡ false)
      × (incoming s.host ≡ incoming s₀.host)
      × IsBalanced s
  Read (ok (some b)) s =
      (b ≢ []) × (length b ≤ read_size) × (incoming s₀.host ≡ b ++ incoming s.host) × IsBalanced s
  Read (err e) s =
      (e ≢ closed) × Said e s.host × (incoming s.host ≡ incoming s₀.host) × IsBalanced s

  abbrev left : Unit {0} → Stream H → ℕ
  left l s = if s.stream then (if ready s.host then 1 else 2) else 0

  abbrev Owed :
      Stream H → Result (Next (Unit {0}) (Option (List Byte))) StreamError → Stream H → Type 0
  Owed s r s' = Round IsReading Read left (left tt s) r s'

  on_error_owes :
      (s : Stream H) (e : StreamError) (h : H)
      → IsReading tt s
      → s.stream ≡ true
      → incoming h ≡ incoming s.host
      → returned h ≡ returned s.host
      → Said e h
      → Owed s
          (on_error input e (record s { host = h })).0
          (on_error input e (record s { host = h })).1
  unfolding on_error
  on_error_owes s closed h i open_stream same kept said =
      let was : WasAtEnd = inr (h, said) in
      ground (
        arith,
        exit-incoming h,
        exit-returned h,
        finish-incoming (input.exit h),
        finish-returned (input.exit h),
      )
  on_error_owes s (last_operation_failed e) h i open_stream same kept said = ground arith

  -- The host after the first read of a round, and after a wait behind that.
  abbrev after_read : Stream H → H
  after_read s = (input.read read_size s.host).1

  read-next_round :
      (s : Stream H) (x : StreamError)
      → s.stream ≡ true
      → (input.read read_size s.host).0 ≡ err x
      → next_round input tt s ≡ on_error input x (record s { host = after_read s })
  unfolding next_round
  read-next_round s x open_stream e = ground arith

  wait-next_round :
      (s : Stream H) (x : StreamError)
      → s.stream ≡ true
      → (input.read read_size s.host).0 ≡ ok []
      → (input.wait (after_read s)).0 ≡ err x
      → next_round input tt s ≡ on_error input x (record s { host = (input.wait (after_read s)).1 })
  unfolding next_round
  wait-next_round s x open_stream e w = ground arith

  read_owes :
      (s : Stream H)
      → IsReading tt s
      → s.stream ≡ true
      → Owed s (next_round input tt s).0 (next_round input tt s).1
  read_owes s i open_stream = elim (Result-cases (input.read read_size s.host).0) [
    | inl ([], e) ↦ elim (Result-cases (input.wait (after_read s)).0) [
      | inl (u, w) ↦
          unfold next_round in
          ground (
            arith,
            read-incoming s.host read_size [] e,
            read-ready s.host read_size,
            read-returned s.host read_size,
            wait-incoming (after_read s),
            wait-ready (after_read s),
            wait-returned (after_read s),
          )
      | inr (x, w) ↦ rw (wait-next_round s x open_stream e w) (
          on_error_owes s x (input.wait (after_read s)).1 i open_stream
            (ground (arith, read-incoming s.host read_size [] e, wait-incoming (after_read s)))
            (wait-returned (after_read s) ∙ read-returned s.host read_size)
            (after_read s, inr (ap (λ r. (r, (input.wait (after_read s)).1)) w)))
    ]
    | inl (b ∷ bs, e) ↦
        unfold next_round in
        ground (arith, read-incoming s.host read_size (b ∷ bs) e, read-returned s.host read_size)
    | inr (x, e) ↦ rw (read-next_round s x open_stream e) (
        on_error_owes s x (after_read s) i open_stream (read-failed s.host read_size x e)
          (read-returned s.host read_size) (s.host, inl (ap (λ r. (r, after_read s)) e)))
  ]

  round_owes :
      (l : Unit {0}) (s : Stream H)
      → IsReading l s
      → Owed s (next_round input l s).0 (next_round input l s).1
  round_owes l s i = elim (Bool-cases s.stream) [
    | inl open_stream ↦ read_owes s i open_stream
    | inr shut ↦ unfold next_round in ground arith
  ]

  -- Where the host keeps its laws, and a shut stream has a shut body, `next` with fuel above 2
  -- ends. A chunk that it returns is the next part of the incoming bytes, not empty and within
  -- `read_size`; when it returns `None` the stream was shut before or the host has told of its end, and both
  -- handles are back with the host; when it raises, it raises what the host has just failed with,
  -- which is not the end of the stream; no byte is lost, and no handle is given back twice.
  pub next-Read :
      (fuel : ℕ)
      → 2 < fuel
      → (s₀.stream ≡ false → s₀.body ≡ false)
      → Returns Read (next input fuel s₀)
  unfolding next
  next-Read fuel enough together =
      while_total IsReading Read left (next_round input) round_owes fuel tt s₀ (ground arith)
        (record { nothing_lost = refl; balanced = refl; together = together; was_at_end = inl })
