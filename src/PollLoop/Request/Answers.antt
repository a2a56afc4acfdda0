-- ===== src/PollLoop/Request/Answers.antt =====
-- `send` ends, and answers with what the host put into the future.
use pycage.Prelude.{
  ℕ, ◌<◌, ◌≡◌, ◌≢◌, ◌⊎◌, refl, Bool, true, none, some, arith, if◌then◌else◌, inl, inr, Option-cases,
}
use pycage.Result.{Result, ok, err}
use pycage.Loop.{Returns, Round, while, while_total, Returns-weaken}
use pycage.Wasi.Http.{ErrorCode}
use pycage.PollLoop.Request.{
  SendError, code_error, unit_error, Taken, Outgoing, after_get, send_once, wait_response,
  send_request,
}

-- What `wasi:io/poll` documents: when the wait for a future's pollable is over, the future is
-- ready.
pub record FutureLaws {H : Type 0} (host : Outgoing H) : Type 0 where
  pub ready : ℕ → H → Bool
  pub wait-ready : (f : ℕ) (h : H) → ready f (host.wait f h) ≡ true
  pub get-ready : (f : ℕ) (h : H) → ready f h ≡ true → (host.get f h).0 ≢ none

module _ {H : Type 0} (host : Outgoing H) (laws : FutureLaws host) where
  open laws use {ready, wait-ready, get-ready}

  -- The outcome is what the future gave when it was asked for the last time: a response is
  -- returned, an error of the host is raised with its code, and a response that was taken before is
  -- raised as an error without one.
  abbrev pub Gave : ℕ → Result ℕ SendError → H → Type 0
  Gave future (ok response) t = (h : H) × (host.get future h ≡ (some (ok (ok response)), t))
  Gave future (err (code_error code)) t = (h : H) × (host.get future h ≡ (some (ok (err code)), t))
  Gave future (err unit_error) t = (h : H) × (host.get future h ≡ (some (err tt), t))

  module _ (future : ℕ) where
    abbrev Anything : Unit {0} → H → Type 0
    Anything _ h = Unit {0}

    abbrev left : Unit {0} → H → ℕ
    left _ h = if ready future h then 0 else 1

    taken_owes :
        (taken : Taken) (h : H) (bound : ℕ)
        → host.get future h ≡ (some taken, (host.get future h).1)
        → Round Anything
            (Gave future)
            left
            bound
            (after_get host future (some taken) (host.get future h).1).0
            (after_get host future (some taken) (host.get future h).1).1
    unfolding after_get
    taken_owes (ok (ok response)) h bound e = (h, e)
    taken_owes (ok (err code)) h bound e = (h, e)
    taken_owes (err x) h bound e = (h, e)

    wait_owes :
        (h : H)
        → (host.get future h).0 ≡ none
        → Round Anything
            (Gave future)
            left
            (left tt h)
            (after_get host future none (host.get future h).1).0
            (after_get host future none (host.get future h).1).1
    unfolding after_get
    wait_owes h e =
        (tt, ground (arith, wait-ready future (host.get future h).1, get-ready future h))

    once_owes :
        (l : Unit {0}) (h : H)
        → Anything l h
        → Round Anything
            (Gave future)
            left
            (left l h)
            (send_once host future l h).0
            (send_once host future l h).1
    unfolding send_once
    once_owes l h i = elim (Option-cases (host.get future h).0) [
      | inl e ↦ rw e (wait_owes h e)
      | inr (taken, e) ↦ rw e (taken_owes taken h (left l h) (ground arith))
    ]

  -- What `send` did: the host refused the request, or it gave the response, or its error, by a
  -- future of its own.
  abbrev pub Answers : ℕ → H → Result ℕ SendError → H → Type 0
  Answers request h r t =
      ((code : ErrorCode) × (host.handle request h ≡ (err code, t)) × (r ≡ err (code_error code)))
      ⊎ ((future : ℕ) × ((host.handle request h).0 ≡ ok future) × Gave future r t)

  -- Where a future is ready after a wait for it, `send` ends with two rounds of fuel. It returns
  -- the response, or raises the error, that the host has put into the future of this request; or
  -- it raises the error with which the host refused the request.
  pub send_request-Answers :
      (fuel request : ℕ) (h : H)
      → 1 < fuel
      → Returns (Answers request h) (send_request host fuel request h)
  unfolding send_request wait_response
  send_request-Answers fuel request h enough = go (host.handle request h).0 refl
    where
      go :
          (q : Result ℕ ErrorCode)
          → (host.handle request h).0 ≡ q
          → Returns (Answers request h) (wait_response host fuel q (host.handle request h).1)
      go (err code) e = inl (code, ground arith, refl)
      go (ok future) e =
          Returns-weaken (Gave future) (Answers request h)
            (while fuel (send_once host future) tt (host.handle request h).1)
            (λ r t g. inr (future, e, g))
            (while_total (Anything future) (Gave future) (left future) (send_once host future)
              (once_owes future) fuel tt (host.handle request h).1 (ground arith) tt)
