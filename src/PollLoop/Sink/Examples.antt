-- ===== src/PollLoop/Sink/Examples.antt =====
-- A host whose buffer takes three bytes between two waits, and a message of seven bytes.
use pycage.Prelude.{
  ℕ, ◌-◌, ◌≡◌, ◌≢◌, refl, Bool, true, false, some, List, [], ◌∷◌, ◌++◌, arith, ltb, length,
}
use pycage.Result.{ok}
use pycage.Loop.{Returns, while}
use pycage.PollLoop.Sink.{OutputStream, send_round, send}
use pycage.PollLoop.Sink.Delivery.{OutputLaws, Sent, send-Sent}

record Pipe : Type 0 where
  accepted : List ℕ
  room : ℕ
  is_flushed : Bool

abbrev pipe : OutputStream Pipe ℕ
pipe = record {
  check_write = λ h. (ok h.room, h);
  write = λ b h. (
    ok tt,
    record h { accepted = h.accepted ++ b; room = h.room - length b; is_flushed = false },
  );
  flush = λ h. (ok tt, record h { is_flushed = true });
  wait = λ h. (ok tt, record h { room = 3 });
}

room_permits : (h : Pipe) → ltb 0 h.room ≡ true → (pipe.check_write h).0 ≢ ok 0
room_permits h r = ground arith

abbrev pipe_laws : OutputLaws pipe
pipe_laws = record {
  written = λ h. h.accepted;
  ready = λ h. ltb 0 h.room;
  flushed = λ h. h.is_flushed;
  check-written = λ h. refl;
  check-flushed = λ h. refl;
  check-ready = room_permits;
  wait-written = λ h. refl;
  wait-flushed = λ h. refl;
  wait-ready = λ h r. refl;
  flush-written = λ h. refl;
  flush-flushed = λ h r. refl;
  write-written = λ h b n p q r. refl;
}

abbrev idle : Pipe
idle = record { accepted = 9 ∷ []; room = 0; is_flushed = false }

abbrev message : List ℕ
message = 1 ∷ 2 ∷ 3 ∷ 4 ∷ 5 ∷ 6 ∷ 7 ∷ []

send_message :
    send pipe message 18 idle
    ≡ some (ok tt, record { accepted = 9 ∷ message; room = 2; is_flushed = true })
unfolding send send_round while
send_message = refl

send-Sent_example : Returns (Sent pipe pipe_laws message (9 ∷ [])) (send pipe message 18 idle)
send-Sent_example = send-Sent pipe pipe_laws message (9 ∷ []) 18 idle (omega arith) refl
