-- ===== src/PollLoop/Sink/Delivery.antt =====
-- `Sink.send` ends, and what it has written is the chunk, whatever the host's back-pressure.
use pycage.Prelude.{
  ℕ, zero, suc, ◌+◌, ◌-◌, ◌*◌, ◌≤◌, ◌<◌, ◌≡◌, ◌≢◌, refl, Bool, true, false, List, ◌++◌, arith,
  if◌then◌else◌, min, length, slice, take, drop, inl, inr, append_assoc, append-nil,
  take-append-slice, length-take, take-length,
}
use pycage.Result.{Result, ok, err, Result-cases}
use pycage.Loop.{Next, Returns, Round, while_total}
use pycage.Wasi.Io.{StreamError}
use pycage.PollLoop.Sink.{OutputStream, Progress, send_branch, send_round, send}

-- What `wasi:io/streams` documents of an output stream: `check_write` and `wait` write nothing;
-- after a wait the next `check_write` permits at least one byte or fails; a write within the
-- permit that succeeds has taken all its bytes; `flush` asks for a flush, and nothing but a write
-- undoes that.
pub record OutputLaws {H Byte : Type 0} (stream : OutputStream H Byte) : Type 0 where
  pub written : H → List Byte
  pub ready : H → Bool
  pub flushed : H → Bool
  pub check-written : (h : H) → written (stream.check_write h).1 ≡ written h
  pub check-flushed : (h : H) → flushed (stream.check_write h).1 ≡ flushed h
  pub check-ready : (h : H) → ready h ≡ true → (stream.check_write h).0 ≢ ok 0
  pub wait-written : (h : H) → written (stream.wait h).1 ≡ written h
  pub wait-flushed : (h : H) → flushed (stream.wait h).1 ≡ flushed h
  pub wait-ready : (h : H) → (stream.wait h).0 ≡ ok tt → ready (stream.wait h).1 ≡ true
  pub flush-written : (h : H) → written (stream.flush h).1 ≡ written h
  pub flush-flushed : (h : H) → (stream.flush h).0 ≡ ok tt → flushed (stream.flush h).1 ≡ true
  pub write-written :
      (h : H) (b : List Byte) (n : ℕ)
      → (stream.check_write h).0 ≡ ok n
      → length b ≤ n
      → (stream.write b (stream.check_write h).1).0 ≡ ok tt
      → written (stream.write b (stream.check_write h).1).1 ≡ written h ++ b

abbrev bit : Bool → ℕ
bit b = if b then 0 else 1

module _ {H Byte : Type 0} (stream : OutputStream H Byte) (laws : OutputLaws stream)
    (chunk base : List Byte) where
  open laws use {
    written, ready, flushed, check-written, check-flushed, check-ready, wait-written, wait-flushed,
    wait-ready, flush-written, flush-flushed, write-written,
  }

  -- Between two rounds the bytes before the offset have been written, and a flush comes last.
  record IsSending (p : Progress) (h : H) : Type 0 where
    in_range : p.offset ≤ length chunk
    so_far : written h ≡ base ++ take p.offset chunk
    flush_last : p.flushing ≡ true → (p.offset ≡ length chunk) × (flushed h ≡ true)

  -- What has been done when `send` returns.
  abbrev pub Sent : Result (Unit {0}) StreamError → H → Type 0
  Sent (ok _) h = (written h ≡ base ++ chunk) × (flushed h ≡ true)
  Sent (err e) h = Unit {0}

  abbrev left : Progress → H → ℕ
  left p h = 2 * (length chunk - p.offset) + 2 * bit p.flushing + bit (ready h)

  abbrev Owed : Progress → H → Result (Next Progress (Unit {0})) StreamError → H → Type 0
  Owed p h r h' = Round IsSending Sent left (left p h) r h'

  wait_round :
      (p : Progress) (h : H)
      → IsSending p h
      → (stream.check_write h).0 ≡ ok 0
      → Owed p h
          (send_branch stream chunk p 0 (stream.check_write h).1).0
          (send_branch stream chunk p 0 (stream.check_write h).1).1
  unfolding send_branch
  wait_round p h i e = ground (
    arith,
    check-written h,
    check-flushed h,
    check-ready h,
    wait-written h',
    wait-flushed h',
    wait-ready h',
  )
    where
      h' : H
      h' = (stream.check_write h).1

  write_round :
      (p : Progress) (h : H) (n : ℕ)
      → IsSending p h
      → (stream.check_write h).0 ≡ ok (suc n)
      → Owed p h
          (send_branch stream chunk p (suc n) (stream.check_write h).1).0
          (send_branch stream chunk p (suc n) (stream.check_write h).1).1
  unfolding send_branch
  write_round p h n i e = ground (
    arith,
    check-written h,
    check-flushed h,
    flush-written h',
    flush-flushed h',
    write-written h (slice chunk p.offset m) (suc n),
    take-append-slice p.offset m (p.offset + m) chunk refl,
    append_assoc base (take p.offset chunk) (slice chunk p.offset m),
    length-take m (drop p.offset chunk),
    take-length p.offset chunk,
  )
    where
      h' : H
      h' = (stream.check_write h).1

      m : ℕ
      m = min (suc n) (length chunk - p.offset)

  round_owes :
      (p : Progress) (h : H)
      → IsSending p h
      → Owed p h (send_round stream chunk p h).0 (send_round stream chunk p h).1
  unfolding send_round
  round_owes p h i = elim (Result-cases (stream.check_write h).0) [
    | inl (zero, e) ↦ rw e (wait_round p h i e)
    | inl (suc n, e) ↦ rw e (write_round p h n i e)
    | inr (x, e) ↦ rw e tt
  ]

  -- Where the host keeps its laws, `send` with fuel above twice the length of the chunk and 3 ends.
  -- When it returns, the host has the chunk behind what it had before, whole and once, and a flush
  -- has been asked for since the last write.
  pub send-Sent :
      (fuel : ℕ) (h : H)
      → 2 * length chunk + 3 < fuel
      → written h ≡ base
      → Returns Sent (send stream chunk fuel h)
  unfolding send
  send-Sent fuel h enough e =
      while_total IsSending Sent left (send_round stream chunk) round_owes fuel
        (record { offset = 0; flushing = false }) h (ground arith)
        (record { in_range = omega arith; so_far = rw append-nil e; flush_last = λ f. cc })
