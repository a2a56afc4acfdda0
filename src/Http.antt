-- ===== src/Http.antt =====
-- guest/pycage_http.py: the HTTP client over the host's `wasi:http`. The host's resources are
-- handles; its calls are parameters over its state, with what each may raise.
pub mod Payload
pub mod Heard
pub mod Content
pub mod Ownership
pub mod Adapter
pub mod Text
mod Examples
mod Host
use Prim.Native.String.{◌++◌ as concat}
use pycage.Prelude.{
  ℕ, zero, suc, Bool, true, false, String, Option, none, some, List, [], ◌∷◌, ◌++◌, map, ◌&&◌, ◌||◌,
  not, str_eq, if◌then◌else◌, length, take, drop,
}
use pycage.Result.{Result, ok, err}
use pycage.Exec.{Exec, pure, raise, require, finally, ◌>>=◌, ◌>>◌}
use pycage.Loop.{Next, again, return, while}
use pycage.Wasi.Io.{StreamError, closed, last_operation_failed}
use pycage.Wasi.Http.{Method, Scheme, ErrorCode, HeaderError}
pub use Host.*

-- `_METHODS.get(name)`, and `Method_Other` for every other name
unfoldable pub method_of : String → Method
method_of name =
    if str_eq name "GET"
    then Method.get
    else if str_eq name "HEAD"
    then Method.head
    else if str_eq name "POST"
    then Method.post
    else if str_eq name "PUT"
    then Method.put
    else if str_eq name "DELETE"
    then Method.delete
    else if str_eq name "OPTIONS"
    then Method.options
    else if str_eq name "PATCH"
    then Method.patch
    else Method.other name

abbrev pub write_size : ℕ
write_size = 4096

abbrev pub read_size : ℕ
read_size = 65536

-- The slices `payload[offset : offset + 4096]` for the offsets of the `range`; each takes at least
-- one byte, so the length is enough fuel.
unfoldable pub chunks : ℕ → Bytes → List Bytes
chunks zero payload = []
chunks (suc fuel) [] = []
chunks (suc fuel) (b ∷ payload) =
    take write_size (b ∷ payload) ∷ chunks fuel (drop write_size (b ∷ payload))

-- What the last part of `request` uses of the response that came.
pub record Opened : Type 0 where
  pub future : ℕ
  pub incoming : ℕ
  pub status_code : ℕ
  pub incoming_body : ℕ
  pub stream : ℕ

abbrev pub values_of : HeaderValue → List String
values_of (single s) = s ∷ []
values_of (several l) = l

abbrev pub payload_of : Texts → Body → Bytes
payload_of texts (text s) = texts.encode s
payload_of texts (bytes b) = b

abbrev pub target : Parts → String
target parts =
    concat (if str_eq parts.path "" then "/" else parts.path)
      (if str_eq parts.query "" then "" else concat "?" parts.query)

-- An exception of a stream call, as `request` raises it.
abbrev pub of_stream : {A : Type 0} → Result A StreamError → Result A RequestError
of_stream (ok a) = ok a
of_stream (err e) = err (stream_error e)

-- The response, or the `OSError`.
abbrev pub unwrap : Option (Result (Result ℕ ErrorCode) (Unit {0})) → Result ℕ RequestError
unwrap none = err (os_error none)
unwrap (some (err e)) = err (os_error none)
unwrap (some (ok (err code))) = err (os_error (some code))
unwrap (some (ok (ok incoming))) = ok incoming

-- A round of the reading loop: a closed stream ends it, any other error is raised.
abbrev pub after_read : Bytes → Result Bytes StreamError → Result (Next Bytes Bytes) RequestError
after_read content (ok b) = ok (again (content ++ b))
after_read content (err closed) = ok (return content)
after_read content (err (last_operation_failed e)) = err (stream_error (last_operation_failed e))

module _ {H : Type 0} (host : HttpHost H) where
  abbrev pub streaming : {A : Type 0} → Exec H StreamError A → Call H A
  streaming m h = (of_stream (m h).0, (m h).1)

  unfoldable pub write_chunks : ℕ → List Bytes → Call H (Unit {0})
  write_chunks output [] = pure tt
  write_chunks output (c ∷ cs) =
      streaming (host.blocking_write_and_flush output c) >> write_chunks output cs

  -- The `try … finally` that writes the payload.
  unfoldable pub write_payload : ℕ → Bytes → Call H (Unit {0})
  unfolding write_chunks chunks
  write_payload output payload =
      finally (write_chunks output (chunks (length payload) payload)) (host.drop_output output)

  -- `future.get()`, after a wait on the pollable if there is no answer yet
  get_again :
      ℕ
      → Option (Result (Result ℕ ErrorCode) (Unit {0}))
      → H
      → Option (Result (Result ℕ ErrorCode) (Unit {0})) × H
  get_again future (some r) h = (some r, h)
  get_again future none h =
      let (pollable, h) = host.subscribe future h in
      host.future_get future (host.drop_pollable pollable (host.block pollable h))

  resolve : ℕ → Call H ℕ
  unfolding get_again
  resolve future h =
      let (r, h) = host.future_get future h in let (r, h) = get_again future r h in (unwrap r, h)

  unfoldable pub read_round : ℕ → Bytes → Call H (Next Bytes Bytes)
  read_round stream content h = (
    after_read content (host.blocking_read stream read_size h).0,
    (host.blocking_read stream read_size h).1,
  )

  -- The reading loop; the chunks are joined as they come.
  unfoldable pub read_all : ℕ → ℕ → H → Option (Result Bytes RequestError × H)
  unfolding read_round
  read_all fuel stream = while fuel (read_round stream) []

  -- The end of `request`. Nothing is done with the future of the trailers that `finish` returns.
  unfoldable pub close_response :
      Opened → Result Bytes RequestError → String → H → Result Response RequestError × H
  close_response o (err e) url h = (err e, host.drop_input o.stream h)
  close_response o (ok content) url h = (
    ok (record { status_code = o.status_code; content = content; url = url }),
    host.drop_future o.future (
        host.drop_incoming o.incoming
          (host.finish_incoming o.incoming_body (host.drop_input o.stream h)).1),
  )

  unfoldable pub read_response :
      ℕ → String → Result Opened RequestError → H → Option (Result Response RequestError × H)
  unfolding close_response read_all
  read_response fuel url (err e) h = some (err e, h)
  read_response fuel url (ok o) h = elim (read_all fuel o.stream h) [
    | none ↦ none
    | some (r, t) ↦ some (close_response o r url t)
  ]

module _ {H : Type 0} (texts : Texts) (host : HttpHost H) where
  set_fields : ℕ → List (String × HeaderValue) → Call H (Unit {0})
  set_fields fields [] = pure tt
  set_fields fields ((name, value) ∷ headers) =
      host.set_field fields (texts.lower name) (map texts.encode (values_of value))
      >> set_fields fields headers

  send_body : ℕ → Option Body → Call H (Unit {0})
  unfolding write_payload
  send_body outgoing none = pure tt
  send_body outgoing (some body) = host.outgoing_body outgoing >>= λ outgoing_body.
      host.body_write outgoing_body >>= λ output.
      write_payload host output (payload_of texts body) >> host.finish_outgoing outgoing_body

  -- The request, up to its head.
  outgoing_request : String → Parts → List (String × HeaderValue) → Call H ℕ
  unfolding set_fields method_of
  outgoing_request method parsed headers h =
      let (fields, h) = host.new_fields h in
      (set_fields fields headers >> λ h.
      let (outgoing, h) = host.new_request fields h in
      (host.set_method outgoing (method_of (texts.upper method))
          >> host.set_scheme outgoing
              (if str_eq parsed.scheme "https" then Scheme.https else Scheme.http)
          >> host.set_authority outgoing parsed.netloc
          >> host.set_path_with_query outgoing (target parsed)
          >> pure outgoing)
        h)
        h

  -- `request` up to the loop that reads the answer
  unfoldable pub open_response :
      String → String → List (String × HeaderValue) → Option Body → Call H Opened
  unfolding outgoing_request send_body resolve
  open_response method url headers body =
      let parsed = texts.urlsplit url in
      require
        ((str_eq parsed.scheme "http" || str_eq parsed.scheme "https")
          && not (str_eq parsed.netloc ""))
        value_error
      >> outgoing_request method parsed headers
      >>= λ outgoing. send_body outgoing body >> host.handle outgoing >>= λ future.
          resolve host future >>= λ incoming h.
          (host.consume incoming >>= λ incoming_body. host.body_stream incoming_body >>= λ stream.
          pure (record {
            future = future;
            incoming = incoming;
            status_code = host.status incoming h;
            incoming_body = incoming_body;
            stream = stream;
          }))
            h

  -- `request`, with fuel for its `while True`
  unfoldable pub request :
      ℕ
      → String
      → String
      → List (String × HeaderValue)
      → Option Body
      → H
      → Option (Result Response RequestError × H)
  unfolding open_response read_response
  request fuel method url headers body h =
      read_response host fuel url (open_response method url headers body h).0
        (open_response method url headers body h).1

  -- `get`
  abbrev pub get :
      ℕ → String → List (String × HeaderValue) → H → Option (Result Response RequestError × H)
  get fuel url headers = request fuel "GET" url headers none
