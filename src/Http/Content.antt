-- ===== src/Http/Content.antt =====
-- What `request` returns is the whole answer.
use pycage.Prelude.{
  ℕ, ◌<◌, ◌≡◌, refl, String, Option, none, some, List, [], ◌++◌, arith, length, length-append,
  append_assoc, append-nil, inl, inr,
}
use pycage.Result.{Result, ok, err, Result-cases}
use pycage.Loop.{Returns, Round, while_total}
use pycage.Wasi.Io.{closed, last_operation_failed}
use pycage.Http.Heard.{Heard, open_response-Heard}
use pycage.Http.{
  Bytes, Texts, HttpHost, RequestError, Response, HeaderValue, Body, Opened, read_size, read_round,
  read_all, close_response, read_response, open_response, request,
}

-- What `wasi:io/streams` documents of a blocking read: it returns the next bytes, at least one,
-- and a stream is closed only at its end.
pub record InputLaws {H : Type 0} (host : HttpHost H) : Type 0 where
  pub pending : ℕ → H → Bytes
  pub read-pending :
      (i n : ℕ) (h : H) (b : Bytes)
      → (host.blocking_read i n h).0 ≡ ok b
      → pending i h ≡ b ++ pending i (host.blocking_read i n h).1
  pub read-progress :
      (i n : ℕ) (h : H) (b : Bytes) → (host.blocking_read i n h).0 ≡ ok b → 0 < length b
  pub closed-pending :
      (i n : ℕ) (h : H) → (host.blocking_read i n h).0 ≡ err closed → pending i h ≡ []

module _ {H : Type 0} (host : HttpHost H) (laws : InputLaws host) (stream : ℕ) (whole : Bytes) where
  open laws use {pending, read-pending, read-progress, closed-pending}

  -- What was read and what is left are the answer.
  abbrev IsReading : Bytes → H → Type 0
  IsReading content h = content ++ pending stream h ≡ whole

  abbrev pub IsWhole : Result Bytes RequestError → H → Type 0
  IsWhole (ok content) h = content ≡ whole
  IsWhole (err e) h = Unit {0}

  abbrev left : Bytes → H → ℕ
  left content h = length (pending stream h)

  step_owes :
      (content : Bytes) (h : H)
      → IsReading content h
      → Round IsReading IsWhole left
          (left content h)
          (read_round host stream content h).0
          (read_round host stream content h).1
  unfolding read_round
  step_owes content h i = elim (Result-cases (host.blocking_read stream read_size h).0) [
    | inl (b, e) ↦ ground (
      arith,
      read-pending stream read_size h b,
      read-progress stream read_size h b,
      append_assoc content b (pending stream (host.blocking_read stream read_size h).1),
      length-append b (pending stream (host.blocking_read stream read_size h).1),
    )
    | inr (closed, e) ↦ ground (arith, closed-pending stream read_size h, append-nil content)
    | inr (last_operation_failed x, e) ↦ rw e tt
  ]

  pub read_all-IsWhole :
      (fuel : ℕ) (h : H)
      → length (pending stream h) < fuel
      → pending stream h ≡ whole
      → Returns IsWhole (read_all host fuel stream h)
  unfolding read_all
  read_all-IsWhole fuel h enough e =
      while_total IsReading IsWhole left (read_round host stream) step_owes fuel [] h enough e

module _ {H : Type 0} (host : HttpHost H) (laws : InputLaws host) (url : String) where
  -- The host had handed over a response for the future of a request, and the result has its status,
  -- all the bytes that the stream of its body had to give when it was opened, and the URL that was
  -- asked for.
  abbrev pub Answers : Result Response RequestError → H → Type 0
  Answers (ok r) h =
      (o : Opened) × (w : H) × Heard host o w
      × (r.status_code ≡ o.status_code)
      × (r.content ≡ laws.pending o.stream w)
      × (r.url ≡ url)
  Answers (err e) h = Unit {0}

module _ {H : Type 0} (host : HttpHost H) (laws : InputLaws host) (url : String)
    (opening : Result Opened RequestError × H)
    (heard : (o : Opened) → opening.0 ≡ ok o → Heard host o opening.1) where
  close-Answers :
      (o : Opened)
      → opening.0 ≡ ok o
      → (m : Option (Result Bytes RequestError × H))
      → Returns (IsWhole host laws o.stream (laws.pending o.stream opening.1)) m
      → Returns
          (Answers host laws url)
          (elim m [ none ↦ none | some (r, t) ↦ some (close_response host o r url t) ])
  unfolding close_response
  close-Answers o e none w = w
  close-Answers o e (some (ok content, t)) w = (o, opening.1, heard o e, refl, w, refl)
  close-Answers o e (some (err x, t)) w = tt

  read_response-Answers :
      (fuel : ℕ)
      → ((o : Opened) → opening.0 ≡ ok o → length (laws.pending o.stream opening.1) < fuel)
      → Returns (Answers host laws url) (read_response host fuel url opening.0 opening.1)
  unfolding read_response
  read_response-Answers fuel enough = go opening.0 refl
    where
      go :
          (q : Result Opened RequestError)
          → opening.0 ≡ q
          → Returns (Answers host laws url) (read_response host fuel url q opening.1)
      go (ok o) e = close-Answers o e (read_all host fuel o.stream opening.1) (
          read_all-IsWhole host laws o.stream (laws.pending o.stream opening.1) fuel opening.1
            (enough o e) refl)
      go (err x) e = tt

module _ {H : Type 0} (texts : Texts) (host : HttpHost H) (laws : InputLaws host) where
  -- Where a read gives the next bytes of the stream, at least one, and the stream is closed only
  -- at its end, `request` ends with fuel above the number of bytes of the answer. When it
  -- returns, the host had handed over, for the future of a request, a response with a body, and the
  -- result has the status of that response and every byte of its body, and the URL that was asked
  -- for.
  pub request-Answers :
      (fuel : ℕ) (method url : String) (headers : List (String × HeaderValue)) (body : Option Body)
      (h : H)
      → ((o : Opened)
          → (open_response texts host method url headers body h).0 ≡ ok o
          → length (laws.pending o.stream (open_response texts host method url headers body h).1)
            < fuel)
      → Returns (Answers host laws url) (request texts host fuel method url headers body h)
  unfolding request
  request-Answers fuel method url headers body h enough =
      read_response-Answers host laws url (open_response texts host method url headers body h)
        (open_response-Heard host texts method url headers body h) fuel enough
