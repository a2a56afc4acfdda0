-- ===== src/Http/Host.antt =====
-- guest/pycage_http.py: the data of a request, and the calls of the host's `wasi:http` that it
-- makes.
use pycage.Prelude.{ℕ, String, Option, List}
use pycage.Result.{Result}
use pycage.Exec.{Exec}
use pycage.Wasi.Io.{StreamError}
use pycage.Wasi.Http.{Method, Scheme, ErrorCode, HeaderError}

abbrev pub Bytes : Type 0
Bytes = List ℕ

-- `Response`
pub record Response : Type 0 where
  pub status_code : ℕ
  pub content : Bytes
  pub url : String

-- `urlsplit(url)`
pub record Parts : Type 0 where
  pub scheme : String
  pub netloc : String
  pub path : String
  pub query : String

-- What `request` raises: its own errors, and the `Err` of the host's calls. An `OSError` shows the
-- code of the host, or `None`.
pub data RequestError : Type 0 where
  value_error : RequestError
  os_error : Option ErrorCode → RequestError
  stream_error : StreamError → RequestError
  header_error : HeaderError → RequestError
  code_error : ErrorCode → RequestError
  unit_error : RequestError

pub data HeaderValue : Type 0 where
  single : String → HeaderValue
  several : List String → HeaderValue

pub data Body : Type 0 where
  text : String → Body
  bytes : Bytes → Body

-- Python's texts.
pub record Texts : Type 0 where
  pub urlsplit : String → Parts
  pub lower : String → String
  pub upper : String → String
  pub encode : String → Bytes

abbrev pub Call : Type 0 → Type 0 → Type 0
Call H A = Exec H RequestError A

-- `wit_world.imports`
pub record HttpHost (H : Type 0) : Type 0 where
  pub new_fields : H → ℕ × H
  pub set_field : ℕ → String → List Bytes → Call H (Unit {0})
  pub new_request : ℕ → H → ℕ × H
  pub set_method : ℕ → Method → Call H (Unit {0})
  pub set_scheme : ℕ → Scheme → Call H (Unit {0})
  pub set_authority : ℕ → String → Call H (Unit {0})
  pub set_path_with_query : ℕ → String → Call H (Unit {0})
  pub outgoing_body : ℕ → Call H ℕ
  pub body_write : ℕ → Call H ℕ
  pub blocking_write_and_flush : ℕ → Bytes → Exec H StreamError (Unit {0})
  pub drop_output : ℕ → H → H
  pub finish_outgoing : ℕ → Call H (Unit {0})
  pub handle : ℕ → Call H ℕ
  pub future_get : ℕ → H → Option (Result (Result ℕ ErrorCode) (Unit {0})) × H
  pub subscribe : ℕ → H → ℕ × H
  pub block : ℕ → H → H
  pub drop_pollable : ℕ → H → H
  pub status : ℕ → H → ℕ
  pub consume : ℕ → Call H ℕ
  pub body_stream : ℕ → Call H ℕ
  pub blocking_read : ℕ → ℕ → Exec H StreamError Bytes
  pub drop_input : ℕ → H → H
  pub finish_incoming : ℕ → H → ℕ × H
  pub drop_incoming : ℕ → H → H
  pub drop_future : ℕ → H → H
