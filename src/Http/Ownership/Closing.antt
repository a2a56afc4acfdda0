-- ===== src/Http/Ownership/Closing.antt =====
-- The handles of `request` behind the head of the answer, and of `request` as a whole.
use pycage.Prelude.{ℕ, ◌+◌, ◌≡◌, length}
use pycage.Result.{Result, ok, err}
use pycage.Http.{Bytes, HttpHost, RequestError, Response, Opened}
use pycage.Http.Content.{InputLaws}
use pycage.Http.Ownership.{Moves, HandleLaws}

module _ {H : Type 0} (host : HttpHost H) (laws : InputLaws host) (handles : HandleLaws host) where
  open handles use {taken, given}

  -- What the part of `request` behind the head gives back: the stream in any case, and the body,
  -- the response and the future where it returns, for one handle of the trailers.
  abbrev GivesBack : H → Result Response RequestError → H → Type 0
  GivesBack h (ok r) t = Moves taken given 1 4 h t
  GivesBack h (err e) t = Moves taken given 0 1 h t

  -- `opening` is what `open_response` came to from `h`.
  abbrev pub Balances : Result Opened RequestError → H → Result Response RequestError → H → Type 0
  Balances opening h (ok r) t = taken t + given h ≡ 1 + given t + taken h
  Balances opening h (err e) t =
      (o : Opened) → opening ≡ ok o → taken t + given h ≡ 3 + given t + taken h

  module _ (stream : ℕ) (h : H) where
    abbrev Same : Bytes → H → Type 0
    Same content t = Moves taken given 0 0 h t

    abbrev SameAfter : Result Bytes RequestError → H → Type 0
    SameAfter r t = Moves taken given 0 0 h t

    abbrev left : Bytes → H → ℕ
    left content t = length (laws.pending stream t)
