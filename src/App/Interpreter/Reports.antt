-- ===== src/App/Interpreter/Reports.antt =====
-- What `run_code` reports of a cell, whatever the cell does.
use pycage.Prelude.{
  ℕ, suc, ◌≤◌, ◌≡◌, refl, Option, none, some, List, [], ◌∷◌, String, arith, length, length-append,
  subst, sym, ap, Option-cases, inl, inr, ◌++◌, append_assoc,
}
use pycage.Result.{Result, ok, err}
use pycage.Exec.{continue, pure, catch, >>=-ok, ◌>>=◌, ◌>>◌}
use pycage.App.Process.{
  Process, Python, Run, Error, value_error, Output, Failure, redirect, new_buffer, content_of,
}
use pycage.App.Display.{execute, display}
use pycage.App.Display.Short.{display-short}
use pycage.App.Interpreter.{encode_run_result, cell_report, report_cell, run_code}

module _ {V W X E O : Type 0} (python : Python V W X E O) where
  -- The body of the `try` of `run_code`, with both streams redirected to the buffers `b` and `c`.
  abbrev pub cell : ℕ → ℕ → String → Run V W X (List (Output V))
  cell b c code =
      redirect b c (python.install_requests_adapter >> execute python code) >>= display python

  -- What a cell comes to from `s`, in the state `t`: its outputs, at most one, and no error; or what
  -- the reading of its exception gives, and no output.
  abbrev pub ComesTo :
      Result (List (Output V)) (Error X) × Process V W
      → List (Output V)
      → Option Failure
      → Process V W
      → Type 0
  ComesTo (ok l, s) outputs none t = (outputs ≡ l) × (length l ≤ 1) × (t ≡ s)
  ComesTo (ok l, s) outputs (some f) t = ⊥
  ComesTo (err e, s) outputs none t = ⊥
  ComesTo (err e, s) outputs (some f) t = (python.failure e s ≡ (ok f, t)) × (outputs ≡ [])

  -- What becomes of it, by the contents of the two buffers, of which a cell may have closed either.
  abbrev pub Sends :
      Option String
      → Option String
      → List (Output V)
      → Option Failure
      → Process V W
      → Result String (Error X) × Process V W
      → Type 0
  Sends (some out) (some log) outputs error t r =
      r
      ≡ encode_run_result python
          (record { outputs = outputs; stdout = out; stderr = log; error = error }) t
  Sends _ _ outputs error t r = r ≡ (err value_error, t)

  abbrev pub Reports : ℕ → ℕ → String → Process V W → Result String (Error X) × Process V W → Type 0
  Reports b c code s r =
      (outputs : List (Output V)) × (error : Option Failure) × (t : Process V W) × ComesTo
        (cell b c code s) outputs error t
      × Sends (content_of b t) (content_of c t) outputs error t r

  sent :
      (b c : ℕ) (outputs : List (Output V)) (error : Option Failure) (t : Process V W)
      → Sends
          (content_of b t)
          (content_of c t)
          outputs
          error
          t
          ((cell_report b c (outputs, error) >>= encode_run_result python) t)
  sent b c outputs error t = elim (Option-cases (content_of b t)) [
    | inl n ↦ rw n refl
    | inr (out, p) ↦ elim (Option-cases (content_of c t)) [
      | inl n ↦ rw (p, n) refl
      | inr (log, q) ↦ rw (p, q) refl
    ]
  ]

  module _
      (failure_returns : (e : Error X) (s : Process V W)
        → (f : Failure) × ((python.failure e s).0 ≡ ok f)) where
    abbrev handler : Error X → Run V W X (List (Output V) × Option Failure)
    handler e = python.failure e >>= λ f. pure ([], some f)

    -- The `try` by the outcome of its body, and what follows it.
    abbrev followed : ℕ → ℕ → Result (List (Output V)) (Error X) → Process V W → Run V W X String
    followed b c q t =
        catch (λ _. continue q (λ outputs. pure (outputs, none)) t) handler >>= λ left.
        cell_report b c left >>= encode_run_result python

    followed-Reports :
        (b c : ℕ) (q : Result (List (Output V)) (Error X)) (t s : Process V W)
        → ((l : List (Output V)) → q ≡ ok l → length l ≤ 1)
        → (outputs : List (Output V)) × (error : Option Failure) × (u : Process V W) × ComesTo
            (q, t)
            outputs
            error
            u
          × Sends (content_of b u) (content_of c u) outputs error u (followed b c q t s)
    followed-Reports b c (ok l) t s short =
        (l, none, t, (refl, short l refl, refl), sent b c l none t)
    followed-Reports b c (err e) t s short =
        let (f, p) = failure_returns e t in
        let u = (python.failure e t).1 in
        ([], some f, u, (ap (λ x. (x, u)) p, refl), rw p (sent b c [] (some f) u))

    report_cell-Reports :
        (b c : ℕ) (code : String) (s : Process V W)
        → Reports b c code s (report_cell python b c code s)
    unfolding report_cell
    report_cell-Reports b c code s =
        followed-Reports b c (cell b c code s).0 (cell b c code s).1 s (λ l e.
          let body : Run V W X (Option V) =
            redirect b c (python.install_requests_adapter >> execute python code) in
          let (v, p, q) = >>=-ok body (display python) s e in
          display-short python v (body s).1 l (rw (sym q) e))

    -- Where the reading of an exception returns, `run_code` comes to a report of the cell, which ran
    -- on two new buffers as its streams: its outputs, at most one, and no error, if it ended, and else
    -- no output and what the reading of its exception has given. The standard output of the report
    -- is what stands in the first buffer then, its standard error what stands in the second; what
    -- `run_code` does with the report is to encode it. Where the cell has closed one of the buffers,
    -- `run_code` raises a `ValueError` in place of that.
    pub run_code-Reports :
        (code : String) (s : Process V W)
        → Reports
            (length s.buffers)
            (suc (length s.buffers))
            code
            (record s { buffers = s.buffers ++ some "" ∷ some "" ∷ [] })
            (run_code python code s)
    unfolding run_code
    run_code-Reports code s =
        subst
          (λ l.
            Reports (length s.buffers) (suc (length s.buffers)) code (record s { buffers = l })
              (run_code python code s))
          (append_assoc s.buffers (some "" ∷ []) (some "" ∷ []))
          (subst
            (λ c.
              Reports (length s.buffers) c code
                (record s { buffers = (s.buffers ++ some "" ∷ []) ++ some "" ∷ [] })
                (run_code python code s))
            (ground (arith, length-append s.buffers (some "" ∷ [])))
            (report_cell-Reports (new_buffer s).0 (new_buffer (new_buffer s).1).0 code
              (new_buffer (new_buffer s).1).1))
