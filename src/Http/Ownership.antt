-- ===== src/Http/Ownership.antt =====
-- The handles of `request`: what each call of the host takes and gives, and what is left of them.
pub mod Opening
pub mod Closing
use pycage.Prelude.{ℕ, ◌+◌, ◌≡◌, String, Option, none, some, List, arith}
use pycage.Result.{Result, ok, err}
use pycage.Exec.{Exec, ◌>>=◌, >>=-ok}
use pycage.Wasi.Io.{StreamError}
use pycage.Wasi.Http.{Method, Scheme, ErrorCode}
use pycage.Http.{Bytes, HttpHost, Call}

module _ {H : Type 0} (taken given : H → ℕ) where
  -- The guest has taken `n` handles from the host since, and has given `m` handles to it.
  abbrev pub Moves : ℕ → ℕ → H → H → Type 0
  Moves n m h t = (taken t ≡ n + taken h) × (given t ≡ m + given h)

  -- With what the guest has given, it holds `n` handles more than before, less `m`.
  abbrev pub Nets : ℕ → ℕ → H → H → Type 0
  Nets n m h t = taken t + given h + m ≡ n + given t + taken h

  abbrev pub Owns : {E A : Type 0} → ℕ → ℕ → Exec H E A → Type 0
  Owns {E} {A} n m c = (h : H) (a : A) → (c h).0 ≡ ok a → Nets n m h (c h).1

  pub >>=-Owns :
      {E A B : Type 0} (n m n' m' : ℕ) (c : Exec H E A) (f : A → Exec H E B)
      → Owns n m c
      → ((a : A) → Owns n' m' (f a))
      → Owns (n + n') (m + m') (c >>= f)
  >>=-Owns n m n' m' c f p q h b e =
      let (a, e', same) = >>=-ok c f h e in
      rw same (omega (arith, p h a e', q a (c h).1 b (rw same at e)))

-- The handles of `wasi:http` and `wasi:io`: a constructor and a getter of a resource give the guest
-- a handle; a drop, and an argument that is passed by value, take one from it. A call that is
-- refused takes none.
pub record HandleLaws {H : Type 0} (host : HttpHost H) : Type 0 where
  pub taken : H → ℕ
  pub given : H → ℕ
  pub new_fields-Moves : (h : H) → Moves taken given 1 0 h (host.new_fields h).1
  pub set_field-Moves :
      (f : ℕ) (name : String) (values : List Bytes) (h : H)
      → Moves taken given 0 0 h (host.set_field f name values h).1
  pub new_request-Moves : (f : ℕ) (h : H) → Moves taken given 1 1 h (host.new_request f h).1
  pub set_method-Moves :
      (r : ℕ) (m : Method) (h : H) → Moves taken given 0 0 h (host.set_method r m h).1
  pub set_scheme-Moves :
      (r : ℕ) (s : Scheme) (h : H) → Moves taken given 0 0 h (host.set_scheme r s h).1
  pub set_authority-Moves :
      (r : ℕ) (s : String) (h : H) → Moves taken given 0 0 h (host.set_authority r s h).1
  pub set_path-Moves :
      (r : ℕ) (s : String) (h : H) → Moves taken given 0 0 h (host.set_path_with_query r s h).1
  pub outgoing_body-Moves :
      (r : ℕ) (h : H) (b : ℕ)
      → (host.outgoing_body r h).0 ≡ ok b
      → Moves taken given 1 0 h (host.outgoing_body r h).1
  pub body_write-Moves :
      (b : ℕ) (h : H) (o : ℕ)
      → (host.body_write b h).0 ≡ ok o
      → Moves taken given 1 0 h (host.body_write b h).1
  pub write-Moves :
      (o : ℕ) (b : Bytes) (h : H) → Moves taken given 0 0 h (host.blocking_write_and_flush o b h).1
  pub drop_output-Moves : (o : ℕ) (h : H) → Moves taken given 0 1 h (host.drop_output o h)
  pub finish_outgoing-Moves :
      (b : ℕ) (h : H)
      → (host.finish_outgoing b h).0 ≡ ok tt
      → Moves taken given 0 1 h (host.finish_outgoing b h).1
  pub handle-Moves :
      (r : ℕ) (h : H) (f : ℕ)
      → (host.handle r h).0 ≡ ok f
      → Moves taken given 1 1 h (host.handle r h).1
  pub get-Moves :
      (f : ℕ) (h : H) (r : ℕ)
      → (host.future_get f h).0 ≡ some (ok (ok r))
      → Moves taken given 1 0 h (host.future_get f h).1
  pub get_none-Moves :
      (f : ℕ) (h : H)
      → (host.future_get f h).0 ≡ none
      → Moves taken given 0 0 h (host.future_get f h).1
  pub subscribe-Moves : (f : ℕ) (h : H) → Moves taken given 1 0 h (host.subscribe f h).1
  pub block-Moves : (p : ℕ) (h : H) → Moves taken given 0 0 h (host.block p h)
  pub drop_pollable-Moves : (p : ℕ) (h : H) → Moves taken given 0 1 h (host.drop_pollable p h)
  pub consume-Moves :
      (r : ℕ) (h : H) (b : ℕ)
      → (host.consume r h).0 ≡ ok b
      → Moves taken given 1 0 h (host.consume r h).1
  pub body_stream-Moves :
      (b : ℕ) (h : H) (s : ℕ)
      → (host.body_stream b h).0 ≡ ok s
      → Moves taken given 1 0 h (host.body_stream b h).1
  pub read-Moves : (s n : ℕ) (h : H) → Moves taken given 0 0 h (host.blocking_read s n h).1
  pub drop_input-Moves : (s : ℕ) (h : H) → Moves taken given 0 1 h (host.drop_input s h)
  pub finish_incoming-Moves : (b : ℕ) (h : H) → Moves taken given 1 1 h (host.finish_incoming b h).1
  pub drop_incoming-Moves : (r : ℕ) (h : H) → Moves taken given 0 1 h (host.drop_incoming r h)
  pub drop_future-Moves : (f : ℕ) (h : H) → Moves taken given 0 1 h (host.drop_future f h)
