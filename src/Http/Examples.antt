-- ===== src/Http/Examples.antt =====
-- A host that takes every write, and answers with a body of five bytes that it gives two at a time.
use pycage.Prelude.{
  ℕ, suc, ◌<◌, ◌≡◌, refl, false, Option, none, some, [], ◌∷◌, ◌++◌, arith, length, take, drop,
  take-append-drop,
}
use pycage.Result.{Result, ok, err}
use pycage.Wasi.Io.{StreamError, closed}
use pycage.Http.{
  Bytes, Texts, HttpHost, value_error, Body, bytes, method_of, write_payload, open_response,
  request,
}
use pycage.Http.Payload.{OutputLaws, Wrote, write_payload-Wrote}
use pycage.Http.Content.{InputLaws, Answers, request-Answers}
use pycage.Http.Adapter.{RequestsModule, http_adapter}
use pycage.Http.Adapter.Routes.{Routes}
use pycage.Loop.{Returns}
use pycage.Wasi.Http.{Method}
use pycage.Http.Ownership.{Moves, HandleLaws}

record Peer : Type 0 where
  got : Bytes
  drop_count : ℕ
  taken_count : ℕ
  given_count : ℕ
  answer : Bytes

abbrev texts : Texts
texts = record {
  urlsplit = λ u. record { scheme = "https"; netloc = "example.com"; path = ""; query = "q=1" };
  lower = λ t. t;
  upper = λ t. t;
  encode = λ t. [];
}

abbrev no_authority : Texts
no_authority = record texts {
  urlsplit = λ u. record { scheme = "https"; netloc = ""; path = ""; query = "" };
}

abbrev read_answer : Bytes → Peer → Result Bytes StreamError × Peer
read_answer [] h = (err closed, h)
read_answer (b ∷ bs) h = (ok (take 2 (b ∷ bs)), record h { answer = drop 2 (b ∷ bs) })

abbrev takes : Peer → Peer
takes h = record h { taken_count = suc h.taken_count }

abbrev gives : Peer → Peer
gives h = record h { given_count = suc h.given_count }

abbrev host : HttpHost Peer
host = record {
  new_fields = λ h. (1, takes h);
  set_field = λ f k vs h. (ok tt, h);
  new_request = λ f h. (2, takes (gives h));
  set_method = λ r m h. (ok tt, h);
  set_scheme = λ r m h. (ok tt, h);
  set_authority = λ r m h. (ok tt, h);
  set_path_with_query = λ r m h. (ok tt, h);
  outgoing_body = λ r h. (ok 3, takes h);
  body_write = λ b h. (ok 4, takes h);
  blocking_write_and_flush = λ o b h. (ok tt, record h { got = h.got ++ b });
  drop_output = λ o h. gives (record h { drop_count = suc h.drop_count });
  finish_outgoing = λ b h. (ok tt, gives h);
  handle = λ r h. (ok 5, takes (gives h));
  future_get = λ f h. (some (ok (ok 6)), takes h);
  subscribe = λ f h. (7, takes h);
  block = λ p h. h;
  drop_pollable = λ p h. gives h;
  status = λ r h. 200;
  consume = λ r h. (ok 8, takes h);
  body_stream = λ b h. (ok 9, takes h);
  blocking_read = λ i n h. read_answer h.answer h;
  drop_input = λ i h. gives h;
  finish_incoming = λ b h. (10, takes (gives h));
  drop_incoming = λ r h. gives h;
  drop_future = λ f h. gives h;
}

abbrev output_laws : OutputLaws host
output_laws = record {
  written = λ h. h.got;
  drops = λ h. h.drop_count;
  write-written = λ o b h l e. refl;
  write-drops = λ o b h. refl;
  drop-written = λ o h. refl;
  drop-drops = λ o h. refl;
}

answer-read :
    (l : Bytes) (h : Peer) (b : Bytes)
    → h.answer ≡ l
    → (read_answer l h).0 ≡ ok b
    → (l ≡ b ++ (read_answer l h).1.answer) × (0 < length b)
answer-read [] h b q e = absurd (ground arith)
answer-read (x ∷ l) h b q e = ground (arith, take-append-drop 2 (x ∷ l))

answer-closed : (l : Bytes) (h : Peer) → (read_answer l h).0 ≡ err closed → l ≡ []
answer-closed [] h e = refl
answer-closed (x ∷ l) h e = cc

abbrev input_laws : InputLaws host
input_laws = record {
  pending = λ i h. h.answer;
  read-pending = λ i n h b e. (answer-read h.answer h b refl e).0;
  read-progress = λ i n h b e. (answer-read h.answer h b refl e).1;
  closed-pending = λ i n h e. answer-closed h.answer h e;
}

abbrev quiet : Peer
quiet = record {
  got = [];
  drop_count = 0;
  taken_count = 0;
  given_count = 0;
  answer = 1 ∷ 2 ∷ 3 ∷ 4 ∷ 5 ∷ [];
}

abbrev upload : Option Body
upload = some (bytes (7 ∷ 8 ∷ []))

connect_is_other : method_of "CONNECT" ≡ Method.other "CONNECT"
unfolding method_of
connect_is_other = refl

refuses_no_authority :
    (open_response no_authority host "GET" "https:x" [] none quiet).0 ≡ err value_error
unfolding open_response
refuses_no_authority = refl

write_payload-Wrote_example :
    Wrote host output_laws 1 (7 ∷ 8 ∷ []) quiet (write_payload host 4 (7 ∷ 8 ∷ []) quiet)
write_payload-Wrote_example = write_payload-Wrote host output_laws 4 (7 ∷ 8 ∷ []) quiet

still_pending :
    length (open_response texts host "PUT" "https://example.com?q=1" [] upload quiet).1.answer < 6
unfolding open_response
still_pending = omega arith

request-Answers_example :
    Returns
      (Answers host input_laws "https://example.com?q=1")
      (request texts host 6 "PUT" "https://example.com?q=1" [] upload quiet)
request-Answers_example =
    request-Answers texts host input_laws 6 "PUT" "https://example.com?q=1" [] upload quiet
      (λ o e. still_pending)

abbrev package_found : Option RequestsModule
package_found = some (record {
  sessions_adapter = http_adapter;
  adapters_adapter = http_adapter;
  pycage_wasi_http = false;
})

abbrev IsMoved : ℕ → ℕ → Peer → Peer → Type 0
IsMoved = Moves (λ (h : Peer). h.taken_count) (λ (h : Peer). h.given_count)

unmoved : (h : Peer) → IsMoved 0 0 h h
unmoved h = (omega arith, omega arith)

took : (h : Peer) → IsMoved 1 0 h (takes h)
took h = (omega arith, omega arith)

gave : (h : Peer) → IsMoved 0 1 h (gives h)
gave h = (omega arith, omega arith)

swapped : (h : Peer) → IsMoved 1 1 h (takes (gives h))
swapped h = (omega arith, omega arith)

read_answer-Moves : (l : Bytes) (h : Peer) → IsMoved 0 0 h (read_answer l h).1
read_answer-Moves [] h = unmoved h
read_answer-Moves (x ∷ l) h = unmoved h

never_none : (f : ℕ) (h : Peer) → (host.future_get f h).0 ≡ none → IsMoved 0 0 h (takes h)
never_none f h e = cc

abbrev handle_laws : HandleLaws host
handle_laws = record {
  taken = λ h. h.taken_count;
  given = λ h. h.given_count;
  new_fields-Moves = λ h. took h;
  set_field-Moves = λ f name values h. unmoved h;
  new_request-Moves = λ f h. swapped h;
  set_method-Moves = λ r m h. unmoved h;
  set_scheme-Moves = λ r s h. unmoved h;
  set_authority-Moves = λ r s h. unmoved h;
  set_path-Moves = λ r s h. unmoved h;
  outgoing_body-Moves = λ r h b e. took h;
  body_write-Moves = λ b h o e. took h;
  write-Moves = λ o b h. unmoved h;
  drop_output-Moves = λ o h. gave h;
  finish_outgoing-Moves = λ b h e. gave h;
  handle-Moves = λ r h f e. swapped h;
  get-Moves = λ f h r e. took h;
  get_none-Moves = never_none;
  subscribe-Moves = λ f h. took h;
  block-Moves = λ p h. unmoved h;
  drop_pollable-Moves = λ p h. gave h;
  consume-Moves = λ r h b e. took h;
  body_stream-Moves = λ b h s e. took h;
  read-Moves = λ s n h. read_answer-Moves h.answer h;
  drop_input-Moves = λ s h. gave h;
  finish_incoming-Moves = λ b h. swapped h;
  drop_incoming-Moves = λ r h. gave h;
  drop_future-Moves = λ f h. gave h;
}
