-- ===== src/Http/Adapter.antt =====
-- guest/pycage_http.py, `install_requests_adapter`: the `requests` package over `request`.
pub mod Routes
use pycage.Prelude.{
  ℕ, Bool, true, false, String, Option, none, some, List, [], ◌∷◌, str_eq, if◌then◌else◌,
}
use pycage.Result.{Result, ok, err}
use pycage.Http.{Bytes, Texts, HttpHost, Response, RequestError, HeaderValue, single, Body, request}

-- The adapter class of the package itself, and that of this module.
pub data AdapterClass : Type 0 where
  http_adapter wasi_http_adapter : AdapterClass

pub record RequestsModule : Type 0 where
  pub sessions_adapter : AdapterClass
  pub adapters_adapter : AdapterClass
  pub pycage_wasi_http : Bool

-- `install_requests_adapter`; `none` is a package that is not installed.
unfoldable pub install_requests_adapter : Option RequestsModule → Bool × Option RequestsModule
install_requests_adapter none = (false, none)
install_requests_adapter (some m) = if m.pycage_wasi_http then (true, some m) else (
  true,
  some (record {
    sessions_adapter = wasi_http_adapter;
    adapters_adapter = wasi_http_adapter;
    pycage_wasi_http = true;
  }),
)

pub record PreparedRequest : Type 0 where
  pub method : String
  pub url : String
  pub headers : List (String × HeaderValue)
  pub body : Option Body

pub record RequestsResponse : Type 0 where
  pub status_code : ℕ
  pub url : String
  pub prepared : PreparedRequest
  pub headers : List (String × HeaderValue)
  pub raw : Bytes
  pub content : Bytes
  pub content_consumed : Bool

-- `requests.exceptions.ConnectionError`, with the error it comes from
pub record ConnectionError : Type 0 where
  pub cause : RequestError
  pub prepared : PreparedRequest

-- `d[k] = v`
put : String → HeaderValue → List (String × HeaderValue) → List (String × HeaderValue)
put k v [] = (k, v) ∷ []
put k v ((j, w) ∷ d) = let rest = put k v d in if str_eq j k then (j, v) ∷ d else (j, w) ∷ rest

abbrev pub received :
    PreparedRequest → Result Response RequestError → Result RequestsResponse ConnectionError
received p (err e) = err (record { cause = e; prepared = p })
received p (ok r) = ok (record {
  status_code = r.status_code;
  url = r.url;
  prepared = p;
  headers = [];
  raw = r.content;
  content = r.content;
  content_consumed = true;
})

-- `WASIHTTPAdapter.send`
unfoldable pub send :
    {H : Type 0}
    → Texts
    → HttpHost H
    → ℕ
    → PreparedRequest
    → H
    → Option (Result RequestsResponse ConnectionError × H)
unfolding put
send texts host fuel p h =
    elim (request texts host fuel p.method p.url
      (put "Accept-Encoding" (single "identity") p.headers) p.body h) [
        | none ↦ none
        | some (r, t) ↦ some (received p r, t)
      ]
