-- ===== src/Http/Ownership/Opening.antt =====
-- The handles of `request` up to the loop that reads the answer.
use pycage.Prelude.{
  ℕ, ◌≡◌, String, Option, none, some, List, [], ◌∷◌, arith, map, inl, inr, if◌then◌else◌, str_eq,
  length, Option-cases, ◌∙◌,
}
use pycage.Result.{Result, ok, err, Result-cases}
use pycage.Exec.{pure, ◌>>=◌, ◌>>◌}
use pycage.Wasi.Http.{ErrorCode, Method, Scheme}
use pycage.Http.{
  Bytes, Texts, Parts, HttpHost, RequestError, HeaderValue, Body, Call, Opened, values_of,
  payload_of, chunks, write_chunks, write_payload, get_again, resolve, unwrap, set_fields,
  send_body, outgoing_request, open_response, method_of, target,
}
use pycage.Http.Ownership.{Moves, Nets, Owns, >>=-Owns, HandleLaws}

module _ {H : Type 0} (host : HttpHost H) (laws : HandleLaws host) where
  open laws use {taken, given}

  writes-same :
      (output : ℕ) (cs : List Bytes) (h : H)
      → Moves taken given 0 0 h (write_chunks host output cs h).1
  unfolding write_chunks
  writes-same output [] h = (omega arith, omega arith)
  writes-same output (c ∷ cs) h = elim (Result-cases (host.blocking_write_and_flush output c h).0) [
    | inl (_, e) ↦ rw e (
        ground (
          arith,
          laws.write-Moves output c h,
          writes-same output cs (host.blocking_write_and_flush output c h).1,
        ))
    | inr (x, e) ↦ rw e (ground (arith, laws.write-Moves output c h))
  ]

  payload-Owns :
      (output : ℕ) (payload : Bytes) → Owns taken given 0 1 (write_payload host output payload)
  unfolding write_payload
  payload-Owns output payload h a e = omega (
    arith,
    writes-same output (chunks (length payload) payload) h,
    laws.drop_output-Moves output (write_chunks host output (chunks (length payload) payload) h).1,
  )

  get_again-Nets :
      (future : ℕ) (r : Option (Result (Result ℕ ErrorCode) (Unit {0}))) (h : H) (incoming : ℕ)
      → r ≡ none
      → (get_again host future r h).0 ≡ some (ok (ok incoming))
      → Nets taken given 1 0 h (get_again host future r h).1
  unfolding get_again
  get_again-Nets future none h incoming n e = omega (
    arith,
    laws.subscribe-Moves future h,
    laws.block-Moves (host.subscribe future h).0 (host.subscribe future h).1,
    laws.drop_pollable-Moves (host.subscribe future h).0
        (host.block (host.subscribe future h).0 (host.subscribe future h).1),
    laws.get-Moves future
        (host.drop_pollable (host.subscribe future h).0
          (host.block (host.subscribe future h).0 (host.subscribe future h).1))
        incoming e,
  )
  get_again-Nets future (some r) h incoming n e = cc

  unwrap-ok :
      (r : Option (Result (Result ℕ ErrorCode) (Unit {0}))) (incoming : ℕ)
      → unwrap r ≡ ok incoming
      → r ≡ some (ok (ok incoming))
  unwrap-ok none i e = cc
  unwrap-ok (some (err x)) i e = cc
  unwrap-ok (some (ok (err x))) i e = cc
  unwrap-ok (some (ok (ok j))) i e = cc

  resolve-Owns : (future : ℕ) → Owns taken given 1 0 (resolve host future)
  unfolding resolve
  resolve-Owns future h incoming e = elim (Option-cases (host.future_get future h).0) [
    | inl n ↦ omega (
      arith,
      laws.get_none-Moves future h n,
      get_again-Nets future (host.future_get future h).0 (host.future_get future h).1 incoming n
          (unwrap-ok _ incoming e),
    )
    | inr (r, s) ↦ rw s (
        omega
          (arith, laws.get-Moves future h incoming (s ∙ unwrap-ok (some r) incoming (rw s at e))))
  ]

  set_fields-same :
      (texts : Texts) (fields : ℕ) (headers : List (String × HeaderValue)) (h : H)
      → Moves taken given 0 0 h (set_fields texts host fields headers h).1
  unfolding set_fields
  set_fields-same texts fields [] h = (omega arith, omega arith)
  set_fields-same texts fields ((name, value) ∷ headers) h =
      let values = map texts.encode (values_of value) in
      elim (Result-cases (host.set_field fields (texts.lower name) values h).0) [
        | inl (_, e) ↦ rw e (
            ground (
              arith,
              laws.set_field-Moves fields (texts.lower name) values h,
              set_fields-same texts fields headers
                  (host.set_field fields (texts.lower name) values h).1,
            ))
        | inr (x, e) ↦
            rw e (ground (arith, laws.set_field-Moves fields (texts.lower name) values h))
      ]

  send_body-Owns :
      (texts : Texts) (outgoing : ℕ) (body : Option Body)
      → Owns taken given 2 2 (send_body texts host outgoing body)
  unfolding send_body
  send_body-Owns texts outgoing none = λ h a e. omega arith
  send_body-Owns texts outgoing (some body) =
      >>=-Owns taken given 1 0 1 2 (host.outgoing_body outgoing)
        (λ b. host.body_write b >>= λ o.
          write_payload host o (payload_of texts body) >> host.finish_outgoing b)
        (λ h b e. omega (arith, laws.outgoing_body-Moves outgoing h b e))
        (λ b.
          >>=-Owns taken given 1 0 0 2 (host.body_write b)
            (λ o. write_payload host o (payload_of texts body) >> host.finish_outgoing b)
            (λ h o e. omega (arith, laws.body_write-Moves b h o e))
            (λ o.
              >>=-Owns taken given 0 1 0 1 (write_payload host o (payload_of texts body))
                (λ _. host.finish_outgoing b) (payload-Owns o (payload_of texts body))
                (λ _ h a e. omega (arith, laws.finish_outgoing-Moves b h e))))

  keeps-Owns :
      {A : Type 0} (c : Call H A)
      → ((h : H) → Moves taken given 0 0 h (c h).1)
      → Owns taken given 0 0 c
  keeps-Owns c p h a e = omega (arith, p h)

  head-Owns :
      (outgoing : ℕ) (m : Method) (s : Scheme) (authority path : String)
      → Owns taken given 0 0 (
          host.set_method outgoing m
          >> host.set_scheme outgoing s
          >> host.set_authority outgoing authority
          >> host.set_path_with_query outgoing path
          >> pure outgoing)
  head-Owns outgoing m s authority path =
      >>=-Owns taken given 0 0 0 0 _ (λ _. pure outgoing)
        (>>=-Owns taken given 0 0 0 0 _ (λ _. host.set_path_with_query outgoing path)
          (>>=-Owns taken given 0 0 0 0 _ (λ _. host.set_authority outgoing authority)
            (>>=-Owns taken given 0 0 0 0 (host.set_method outgoing m)
              (λ _. host.set_scheme outgoing s)
              (keeps-Owns (host.set_method outgoing m) (laws.set_method-Moves outgoing m))
              (λ _. keeps-Owns (host.set_scheme outgoing s) (laws.set_scheme-Moves outgoing s)))
            (λ _.
              keeps-Owns (host.set_authority outgoing authority)
                (laws.set_authority-Moves outgoing authority)))
          (λ _.
            keeps-Owns (host.set_path_with_query outgoing path)
              (laws.set_path-Moves outgoing path)))
        (λ _ h a e. omega arith)

  outgoing_request-Owns :
      (texts : Texts) (method : String) (parsed : Parts) (headers : List (String × HeaderValue))
      → Owns taken given 1 0 (outgoing_request texts host method parsed headers)
  unfolding outgoing_request
  outgoing_request-Owns texts method parsed headers h a e =
      let fields = (host.new_fields h).0 in
      omega (
        arith,
        laws.new_fields-Moves h,
        >>=-Owns taken given 0 0 1 1 (set_fields texts host fields headers) _
            (keeps-Owns (set_fields texts host fields headers)
              (set_fields-same texts fields headers))
            (λ _ t b q. omega (
              arith,
              laws.new_request-Moves fields t,
              head-Owns (host.new_request fields t).0 (method_of (texts.upper method))
                  (if str_eq parsed.scheme "https" then Scheme.https else Scheme.http) parsed.netloc
                  (target parsed) (host.new_request fields t).1 b q,
            ))
            (host.new_fields h).1 a e,
      )

  answer-Owns :
      (future incoming status_code : ℕ)
      → Owns taken given {E = RequestError} {A = Opened} 2 0 (
          host.consume incoming >>= λ incoming_body. host.body_stream incoming_body >>= λ stream.
          pure (record {
            future = future;
            incoming = incoming;
            status_code = status_code;
            incoming_body = incoming_body;
            stream = stream;
          }))
  answer-Owns future incoming status_code =
      >>=-Owns taken given 1 0 1 0 (host.consume incoming) _
        (λ h b e. omega (arith, laws.consume-Moves incoming h b e))
        (λ b.
          >>=-Owns taken given 1 0 0 0 (host.body_stream b) _
            (λ h s e. omega (arith, laws.body_stream-Moves b h s e)) (λ s h a e. omega arith))

  -- An answer that `request` can read is one with four handles more: the future's, the response's,
  -- its body's and its stream's. All others that were taken have been given back by then.
  pub open_response-Owns :
      (texts : Texts) (method url : String) (headers : List (String × HeaderValue))
      (body : Option Body)
      → Owns taken given 7 3 (open_response texts host method url headers body)
  unfolding open_response
  open_response-Owns texts method url headers body =
      >>=-Owns taken given 1 0 6 3 _ _
        (>>=-Owns taken given 0 0 1 0 _
          (λ _. outgoing_request texts host method (texts.urlsplit url) headers)
          (λ h a e. omega arith)
          (λ _. outgoing_request-Owns texts method (texts.urlsplit url) headers))
        (λ outgoing.
          >>=-Owns taken given 3 3 3 0 _ _
            (>>=-Owns taken given 2 2 1 1 (send_body texts host outgoing body)
              (λ _. host.handle outgoing) (send_body-Owns texts outgoing body)
              (λ _ h f e. omega (arith, laws.handle-Moves outgoing h f e)))
            (λ future.
              >>=-Owns taken given 1 0 2 0 (resolve host future) _ (resolve-Owns future)
                (λ incoming h. answer-Owns future incoming (host.status incoming h) h)))
