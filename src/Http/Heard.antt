-- ===== src/Http/Heard.antt =====
-- guest/pycage_http.py, `request` up to the loop that reads the answer: what the host has said where
-- there is an answer to read.
use pycage.Prelude.{
  ℕ, ◌≡◌, refl, String, Option, none, some, List, ap, sym, subst, ◌∙◌, str_eq, not, ◌&&◌, ◌||◌,
}
use pycage.Result.{Result, ok, err}
use pycage.Exec.{pure, require, ◌>>=◌, ◌>>◌, >>=-ok}
use pycage.Wasi.Http.{ErrorCode}
use pycage.Http.{
  Texts, HttpHost, Call, RequestError, value_error, HeaderValue, Body, Opened, unwrap, get_again,
  resolve, send_body, outgoing_request, open_response,
}

unwrap-ok :
    (r : Option (Result (Result ℕ ErrorCode) (Unit {0}))) (incoming : ℕ)
    → unwrap r ≡ ok incoming
    → r ≡ some (ok (ok incoming))
unwrap-ok none i e = cc
unwrap-ok (some (err x)) i e = cc
unwrap-ok (some (ok (err x))) i e = cc
unwrap-ok (some (ok (ok j))) i e = cc

module _ {H : Type 0} (host : HttpHost H) where
  -- The calls of the host that have given the answer `o`, the last of them in the state `w`: a
  -- request was handed over for the future, the future gave the response, which gave its status and
  -- its body, and the body gave its stream.
  pub record Heard (o : Opened) (w : H) : Type 0 where
    pub outgoing : ℕ
    pub sending : H
    pub asked : (host.handle outgoing sending).0 ≡ ok o.future
    pub getting : H
    pub answered : H
    pub got : host.future_get o.future getting ≡ (some (ok (ok o.incoming)), answered)
    pub status : o.status_code ≡ host.status o.incoming answered
    pub opened : H
    pub consumed : host.consume o.incoming answered ≡ (ok o.incoming_body, opened)
    pub streamed : host.body_stream o.incoming_body opened ≡ (ok o.stream, w)

  -- What holds of the rest of some calls, holds of all of them.
  behind :
      {A B : Type 0} (c : Call H A) (f : A → Call H B) (P : B → H → Type 0) (h : H)
      → ((a : A) → (c h).0 ≡ ok a → (b : B) → (f a (c h).1).0 ≡ ok b → P b (f a (c h).1).1)
      → (b : B) → ((c >>= f) h).0 ≡ ok b
      → P b ((c >>= f) h).1
  behind c f P h p b e = let (a, e', same) = >>=-ok c f h e in rw same (p a e' b (rw same at e))

  paired : {A B : Type 0} (x : A × B) (a : A) → x.0 ≡ a → x ≡ (a, x.1)
  paired x a e = ap (λ y. (y, x.1)) e

  abbrev Got : ℕ → ℕ → H → Type 0
  Got future incoming t = (g : H) × (host.future_get future g ≡ (some (ok (ok incoming)), t))

  get_again-Got :
      (future : ℕ) (r : Option (Result (Result ℕ ErrorCode) (Unit {0}))) (h : H) (incoming : ℕ)
      → host.future_get future h ≡ (r, (host.future_get future h).1)
      → (get_again host future r (host.future_get future h).1).0 ≡ some (ok (ok incoming))
      → Got future incoming (get_again host future r (host.future_get future h).1).1
  unfolding get_again
  get_again-Got future (some r) h incoming e q =
      (h, e ∙ ap (λ y. (y, (host.future_get future h).1)) q)
  get_again-Got future none h incoming e q = (_, paired _ (some (ok (ok incoming))) q)

  resolve-Got :
      (future : ℕ) (h : H) (incoming : ℕ)
      → (resolve host future h).0 ≡ ok incoming
      → Got future incoming (resolve host future h).1
  unfolding resolve
  resolve-Got future h incoming e =
      get_again-Got future (host.future_get future h).0 h incoming refl (unwrap-ok _ incoming e)

  read_from :
      {o o' : Opened} {w : H} {r : Result Opened RequestError}
      → Heard o w
      → r ≡ ok o
      → r ≡ ok o'
      → Heard o' w
  read_from {o} {o'} {w} heard p q =
      let same : o ≡ o' = cc (p, q) in subst (λ x. Heard x w) same heard

  -- The rest of the calls, by what the call before them has given.
  abbrev with_stream : ℕ → ℕ → ℕ → ℕ → ℕ → Call H Opened
  with_stream future incoming status_code incoming_body stream = pure (record {
    future = future;
    incoming = incoming;
    status_code = status_code;
    incoming_body = incoming_body;
    stream = stream;
  })

  abbrev with_body : ℕ → ℕ → ℕ → ℕ → Call H Opened
  with_body future incoming status_code incoming_body =
      host.body_stream incoming_body >>= with_stream future incoming status_code incoming_body

  abbrev with_response : ℕ → ℕ → Call H Opened
  with_response future incoming h =
      (host.consume incoming >>= with_body future incoming (host.status incoming h)) h

  abbrev with_future : ℕ → Call H Opened
  with_future future = resolve host future >>= with_response future

  abbrev with_request : Texts → Option Body → ℕ → Call H Opened
  with_request texts body outgoing =
      send_body texts host outgoing body >> host.handle outgoing >>= with_future

  module _ (outgoing : ℕ) (sending : H) (future : ℕ)
      (asked : (host.handle outgoing sending).0 ≡ ok future) where
    response-Heard :
        (incoming : ℕ) (t : H)
        → Got future incoming t
        → (o : Opened) → (with_response future incoming t).0 ≡ ok o
        → Heard o (with_response future incoming t).1
    response-Heard incoming t (getting, got) =
        behind (host.consume incoming) (with_body future incoming (host.status incoming t)) Heard t
          (λ b consumed.
            behind (host.body_stream b) (with_stream future incoming (host.status incoming t) b)
              Heard (host.consume incoming t).1
              (λ stream streamed o e.
                read_from
                  (record {
                    outgoing = outgoing;
                    sending = sending;
                    asked = asked;
                    getting = getting;
                    answered = t;
                    got = got;
                    status = refl;
                    opened = (host.consume incoming t).1;
                    consumed = paired (host.consume incoming t) (ok b) consumed;
                    streamed =
                        paired (host.body_stream b (host.consume incoming t).1) (ok stream)
                          streamed;
                  })
                  refl e))

    future-Heard :
        (t : H) (o : Opened) → (with_future future t).0 ≡ ok o → Heard o (with_future future t).1
    future-Heard t = behind (resolve host future) (with_response future) Heard t (λ incoming e.
        response-Heard incoming (resolve host future t).1 (resolve-Got future t incoming e))

  request-Heard :
      (texts : Texts) (body : Option Body) (outgoing : ℕ) (t : H) (o : Opened)
      → (with_request texts body outgoing t).0 ≡ ok o
      → Heard o (with_request texts body outgoing t).1
  request-Heard texts body outgoing t =
      behind (send_body texts host outgoing body >> host.handle outgoing) with_future Heard t
        (λ future asked.
          let (_, _, same) =
            >>=-ok (send_body texts host outgoing body) (λ _. host.handle outgoing) t asked in
          future-Heard outgoing (send_body texts host outgoing body t).1 future
            (ap (λ (y : Result ℕ RequestError × H). y.0) (sym same) ∙ asked)
            ((send_body texts host outgoing body >> host.handle outgoing) t).1)

  pub open_response-Heard :
      (texts : Texts) (method url : String) (headers : List (String × HeaderValue))
      (body : Option Body) (h : H) (o : Opened)
      → (open_response texts host method url headers body h).0 ≡ ok o
      → Heard o (open_response texts host method url headers body h).1
  unfolding open_response
  open_response-Heard texts method url headers body h =
      let parsed = texts.urlsplit url in
      let head : Call H ℕ =
        require
          ((str_eq parsed.scheme "http" || str_eq parsed.scheme "https")
            && not (str_eq parsed.netloc ""))
          value_error
        >> outgoing_request texts host method parsed headers in
      behind head (with_request texts body) Heard h
        (λ outgoing _. request-Heard texts body outgoing (head h).1)
