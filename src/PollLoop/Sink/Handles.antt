-- ===== src/PollLoop/Sink/Handles.antt =====
-- guest/poll_loop.py, `Sink.__init__` and `Sink.close`: the handles of the writer.
use pycage.Prelude.{ℕ, suc, ◌≡◌, refl, Option, none, some}
use pycage.Result.{Result, ok, err}
use pycage.Exec.{Exec, ◌>>=◌}
use pycage.Wasi.Http.{ErrorCode}

-- What the calls raise: `Err(None)` of `body.write()`, an error code of `finish`, or the use of
-- `None`.
pub data SinkError : Type 0 where
  unit_error attribute_error : SinkError
  code_error : ErrorCode → SinkError

-- `finish` of `None` is an error of the binding.
pub record OutgoingBody (H : Type 0) : Type 0 where
  pub write : ℕ → Exec H SinkError ℕ
  pub drop_stream : ℕ → H → H
  pub finish : Option ℕ → Exec H SinkError (Unit {0})

-- `Sink`, beside the host.
pub record SinkHandles (H : Type 0) : Type 0 where
  pub body : Option ℕ
  pub stream : Option ℕ
  pub host : H

module _ {H : Type 0} (outgoing : OutgoingBody H) where
  -- `Sink(body)`
  unfoldable pub open_sink : ℕ → H → Result (SinkHandles H) SinkError × H
  open_sink body = outgoing.write body >>= λ stream h.
      (ok (record { body = some body; stream = some stream; host = h }), h)

  -- The lines of `close` behind the stream's: where `finish` raises, the body is kept.
  finish_body : Exec (SinkHandles H) SinkError (Unit {0})
  finish_body s =
      let (r, h) = outgoing.finish s.body s.host in
      elim r [
        | ok _ ↦ (ok tt, record s { body = none; host = h })
        | err e ↦ (err e, record s { host = h })
      ]

  close_stream : Option ℕ → Exec (SinkHandles H) SinkError (Unit {0})
  unfolding finish_body
  close_stream none s = (err attribute_error, s)
  close_stream (some stream) s =
      finish_body (record s { stream = none; host = outgoing.drop_stream stream s.host })

  -- `Sink.close`
  unfoldable pub close : Exec (SinkHandles H) SinkError (Unit {0})
  unfolding close_stream
  close s = close_stream s.stream s

abbrev counting : OutgoingBody ℕ
counting = record {
  write = λ b h. (ok 4, h);
  drop_stream = λ o h. suc h;
  finish = λ b h. (ok tt, h);
}

abbrev opened : SinkHandles ℕ
opened = record { body = some 3; stream = some 4; host = 0 }

second_close_raises : (close counting (close counting opened).1).0 ≡ err attribute_error
unfolding close close_stream finish_body
second_close_raises = refl
