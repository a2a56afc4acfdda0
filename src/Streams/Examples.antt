-- ===== src/Streams/Examples.antt =====
-- A reader that takes two items at a time and drops its end after three, and a source of four
-- items.
use pycage.Prelude.{
  ℕ, suc, ◌<◌, ◌≡◌, ◌≢◌, refl, true, none, some, List, [], ◌∷◌, ◌++◌, ◌⊎◌, inl, inr, arith, length,
  take, min, Option, subst, sym, ap,
}
use pycage.Result.{ok}
use pycage.Loop.{Returns, while}
use pycage.Streams.{
  StreamRuntime, completed, dropped, new_reader, new_writer, write, write_all_round, write_all,
  collect_reader, collect_writer,
}
use pycage.Streams.WriteAll.{WriteLaws, Sent, write_all-Sent}
use pycage.Streams.Reader.{ReaderLaws, reads, exits, call_readers, reader_drops_once}
use pycage.Streams.Writer.{WriterLaws, writes, call_writers, writer_drops_once}

record Peer : Type 0 where
  got : List ℕ
  drop_count : ℕ

-- The peer reads at most two items of a write, and has dropped its end once it has three.
abbrev taken : Peer → List ℕ → ℕ
taken h b = min 2 (length b)

abbrev code : Peer → ℕ
code h = elim h.got [ [] ↦ completed | x ∷ xs ↦ dropped ]

abbrev runtime : StreamRuntime Peer ℕ
runtime = record {
  stream_read = λ t x n h. (some (completed, []), h);
  stream_write =
      λ t x b h. (some (code h, taken h b), record h { got = h.got ++ take (taken h b) b });
  stream_drop_readable = λ t x h. record h { drop_count = suc h.drop_count };
  stream_drop_writable = λ t x h. record h { drop_count = suc h.drop_count };
}

code-cases :
    (l : List ℕ) (n : ℕ)
    → (code (record { got = l; drop_count = n }) ≡ completed)
      ⊎ (code (record { got = l; drop_count = n }) ≡ dropped)
code-cases [] n = inl refl
code-cases (x ∷ xs) n = inr refl

taken-pos : (b : List ℕ) → b ≢ [] → 0 < min 2 (length b)
taken-pos [] n = absurd (n refl)
taken-pos (x ∷ xs) n = omega arith

code-answer :
    (b : List ℕ) (h : Peer) (c n : ℕ)
    → ◌≡◌ {A = Option (ℕ × ℕ)} (some (code h, taken h b)) (some (c, n))
    → (c ≡ code h) × (n ≡ taken h b)
code-answer b h c n e = (cc e, cc e)

never_blocks : (b : List ℕ) (h : Peer) → ◌≢◌ {A = Option (ℕ × ℕ)} (some (code h, taken h b)) none
never_blocks b h e = cc e

abbrev write_laws : WriteLaws runtime
write_laws = record {
  delivered = λ h. h.got;
  write-code = λ t x b h c n e.
      subst (λ k. (k ≡ completed) ⊎ (k ≡ dropped)) (sym (code-answer b h c n e).0)
        (code-cases h.got h.drop_count);
  write-le = λ t x b h c n e. omega (arith, (code-answer b h c n e).1);
  write-progress = λ t x b h n e some_left.
      subst (λ k. 0 < k) (sym (code-answer b h completed n e).1) (taken-pos b some_left);
  write-delivered = λ t x b h c n e. ap (λ k. h.got ++ take k b) (sym (code-answer b h c n e).1);
  write-blocked = λ t x b h e. absurd (never_blocks b h e);
}

abbrev reader_laws : ReaderLaws runtime
reader_laws = record {
  drops = λ h. h.drop_count;
  read-drops = λ t x n h. refl;
  drop-drops = λ t x h. refl;
}

abbrev writer_laws : WriterLaws runtime
writer_laws = record {
  drops = λ h. h.drop_count;
  write-drops = λ t x b h. refl;
  drop-drops = λ t x h. refl;
}

abbrev quiet : Peer
quiet = record { got = []; drop_count = 0 }

abbrev items : List ℕ
items = 1 ∷ 2 ∷ 3 ∷ 4 ∷ 5 ∷ []

stops_at_drop :
    write_all runtime 7 items (new_writer 1 9 quiet)
    ≡ some (
      ok 4,
      record (new_writer 1 9 (record { got = 1 ∷ 2 ∷ 3 ∷ 4 ∷ []; drop_count = 0 })) {
        reader_dropped = true;
      },
    )
unfolding write_all write_all_round write while
stops_at_drop = refl

write_all-Sent_example :
    Returns
      (Sent runtime write_laws items (new_writer 1 9 quiet))
      (write_all runtime 7 items (new_writer 1 9 quiet))
write_all-Sent_example =
    write_all-Sent runtime write_laws items (new_writer 1 9 quiet) 7 (omega arith)

reader_drops_once_example :
    (collect_reader runtime (
      call_readers runtime
        (new_reader 1 9 quiet)
        (reads 4 ∷ exits ∷ reads 4 ∷ exits ∷ []))).host.drop_count
    ≡ 1
reader_drops_once_example =
    reader_drops_once runtime reader_laws 1 9 quiet (reads 4 ∷ exits ∷ reads 4 ∷ exits ∷ [])

writer_drops_once_example :
    (collect_writer runtime
      (call_writers runtime (new_writer 1 9 quiet) (writes items ∷ []))).host.drop_count
    ≡ 1
writer_drops_once_example = writer_drops_once runtime writer_laws 1 9 quiet (writes items ∷ [])
