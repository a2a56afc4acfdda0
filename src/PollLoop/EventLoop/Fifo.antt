-- ===== src/PollLoop/EventLoop/Fifo.antt =====
-- A turn of the loop takes the whole queue at once; a scheduler that takes one handle after the
-- other from the front does the same.
use mathlib.Core.List.{foldl}
use pycage.Prelude.{
  ℕ, zero, suc, ◌≡◌, refl, sym, ap, ◌∙◌, List, [], ◌∷◌, ◌++◌, append-nil, append_assoc, length,
  Bool-cases, inl, inr,
}
use pycage.PollLoop.EventLoop.{Host, State, PollLoop, HandleId, Call, run_handle, run_handles}
use pycage.PollLoop.EventLoop.Turn.{called, foldl-perform}

module _ {W : Type 0} (host : Host W) where
  -- The reference: the handle at the front leaves the queue and runs, and what it schedules waits
  -- behind all that are queued.
  front : List HandleId → State W → State W
  front [] s = s
  front (h ∷ hs) s = run_handle host (record s { loop = record s.loop { handles = hs } }) h

  run_front : State W → State W
  unfolding front
  run_front s = front s.loop.handles s

  pub run_fronts : ℕ → State W → State W
  unfolding run_front
  run_fronts zero s = s
  run_fronts (suc n) s = run_fronts n (run_front s)

  -- The state with the handles `hs` in front of its queue.
  abbrev before : List HandleId → State W → State W
  before hs s = record s { loop = record s.loop { handles = hs ++ s.loop.handles } }

  called-before :
      (hs : List HandleId) (l : PollLoop) (cs : List Call)
      → called (record l { handles = hs ++ l.handles }) cs
        ≡ record (called l cs) { handles = hs ++ (called l cs).handles }
  called-before hs l cs = simp append_assoc

  run_handle-before :
      (hs : List HandleId) (s : State W) (h : HandleId)
      → run_handle host (before hs s) h ≡ before hs (run_handle host s h)
  unfolding run_handle
  run_handle-before hs s h = elim (Bool-cases (host.cancelled s.world h)) [
    | inl c ↦ rw c refl
    | inr c ↦ rw c (
        ap (λ l. record { loop = l; world = (host.run s.world h).1 })
          (foldl-perform (host.run s.world h).0 (before hs s).loop
            ∙ called-before hs s.loop (host.run s.world h).0
            ∙ ap (λ (l : PollLoop). record l { handles = hs ++ l.handles })
                (sym (foldl-perform (host.run s.world h).0 s.loop))))
  ]

  run_fronts-before :
      (hs : List HandleId) (s : State W)
      → run_fronts (length hs) (before hs s) ≡ foldl (run_handle host) s hs
  unfolding run_fronts run_front front
  run_fronts-before [] s = refl
  run_fronts-before (h ∷ hs) s =
      ap (run_fronts (length hs)) (run_handle-before hs s h)
      ∙ run_fronts-before hs (run_handle host s h)

  -- A turn that takes the queue as a whole is as many steps of a scheduler that takes one handle
  -- at a time from the front of it, and puts what a handle schedules behind all others: the
  -- handles run first in, first out.
  pub run_handles-Fifo : (s : State W) → run_handles host s ≡ run_fronts (length s.loop.handles) s
  unfolding run_handles
  run_handles-Fifo s =
      sym (run_fronts-before s.loop.handles (record s { loop = record s.loop { handles = [] } }))
      ∙ ap
          (λ hs.
            run_fronts (length s.loop.handles) (record s { loop = record s.loop { handles = hs } }))
          (append-nil s.loop.handles)
