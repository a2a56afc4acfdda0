-- ===== src/Futures/Examples.antt =====
-- A host that counts the values that it is given and the handles that it gets back.
use pycage.Prelude.{ℕ, suc, ◌≡◌, refl, true, false, none, some, List, [], ◌∷◌}
use pycage.Result.{ok, err}
use pycage.Futures.{
  FutureRuntime, FutureWriter, completed, dropped, assertion_error, new_reader, new_writer, read,
  write, exit_reader, collect_reader,
}
use pycage.Futures.Reader.{
  ReaderLaws, Drops, reads, exits, call_reader, call_readers, future_reader_drops_once,
}
use pycage.Futures.Writer.{
  WriterLaws, WriterCall, writes, exits, runs, call_writers, collected, future_writer_writes_once,
}

record Peer : Type 0 where
  got : List ℕ
  value_count : ℕ
  drop_count : ℕ

-- The peer takes the first value, and has dropped its end then.
abbrev runtime : FutureRuntime Peer ℕ
runtime = record {
  future_read = λ t x h. (some 42, h);
  future_write = λ t x a h. (
    elim h.got [ [] ↦ some completed | b ∷ bs ↦ some dropped ],
    record h { got = a ∷ h.got; value_count = suc h.value_count },
  );
  future_drop_readable = λ t x h. record h { drop_count = suc h.drop_count };
  future_drop_writable = λ t x h. record h { drop_count = suc h.drop_count };
}

abbrev reader_laws : ReaderLaws runtime
reader_laws = record {
  drops = λ h. h.drop_count;
  read-drops = λ t x h. refl;
  drop-drops = λ t x h. refl;
}

write_answered :
    (got : List ℕ) → (c : ℕ) × ((elim got [ [] ↦ some completed | b ∷ bs ↦ some dropped ]) ≡ some c)
write_answered [] = (completed, refl)
write_answered (b ∷ bs) = (dropped, refl)

abbrev writer_laws : WriterLaws runtime
writer_laws = record {
  values = λ h. h.value_count;
  drops = λ h. h.drop_count;
  write-answered = λ t x a h. write_answered h.got;
  write-values = λ t x a h. refl;
  write-drops = λ t x a h. refl;
  drop-values = λ t x h. refl;
  drop-drops = λ t x h. refl;
}

abbrev quiet : Peer
quiet = record { got = []; value_count = 0; drop_count = 0 }

abbrev calls : List (WriterCall ℕ)
calls = exits ∷ exits ∷ runs ∷ writes 7 ∷ []

abbrev last : FutureWriter Peer ℕ
last = collected runtime (call_writers runtime (new_writer 1 9 0 quiet) calls)

abbrev busy : Peer
busy = record { got = 1 ∷ []; value_count = 1; drop_count = 0 }

second_read_refused : (read runtime (read runtime (new_reader 1 9 quiet)).1).0 ≡ err assertion_error
unfolding read
second_read_refused = refl

write_taken : (write runtime 5 (new_writer 1 9 0 quiet)).0 ≡ ok true
unfolding write
write_taken = refl

write_too_late : (write runtime 5 (new_writer 1 9 0 busy)).0 ≡ ok false
unfolding write
write_too_late = refl

-- A read that blocks, and a collection: the handle is not given back.
abbrev silent : FutureRuntime Peer ℕ
silent = record runtime { future_read = λ t x h. (none, h) }

blocked_read_loses :
    (collect_reader silent
      (call_readers silent (new_reader 1 9 quiet) (reads ∷ exits ∷ []))).host.drop_count
    ≡ 0
unfolding call_readers call_reader read exit_reader collect_reader
blocked_read_loses = refl

future_reader_drops_once_example :
    Drops runtime reader_laws 0
      (collect_reader runtime
        (call_readers runtime (new_reader 1 9 quiet) (reads ∷ exits ∷ reads ∷ []))).host
future_reader_drops_once_example =
    future_reader_drops_once runtime reader_laws 1 9 quiet (reads ∷ exits ∷ reads ∷ [])

future_writer_writes_once_example : (last.host.value_count ≡ 1) × (last.host.drop_count ≡ 1)
future_writer_writes_once_example = future_writer_writes_once runtime writer_laws 1 9 0 quiet calls
