-- ===== src/PollLoop/EventLoop.antt =====
-- guest/poll_loop.py, `class PollLoop` and `register`. Handles, wakers, pollables and exceptions
-- are named by numbers. What `asyncio` and the host do is a parameter: which methods of the loop a
-- callback calls, the outcome of `set_result`, the indices that `poll` returns.
mod Indices
mod Wakers
pub mod Polling
pub mod Turn
pub mod Methods
pub mod Fifo
pub mod Tasks
pub mod Waking
pub mod Completion
mod Examples
use mathlib.Core.List.{foldl}
use pycage.Prelude.{
  ℕ, zero, suc, Bool, true, false, Option, none, some, List, [], ◌∷◌, ◌++◌, map, if◌then◌else◌, not,
  ◌&&◌, ltb, ap, length, set, replicate,
}
use pycage.Result.{Result, ok, err}
use pycage.Exec.{Exec, pure, lift, modify, ◌>>=◌, ◌>>◌}
use pycage.Loop.{Next, again, return, while}

abbrev pub HandleId : Type 0
HandleId = ℕ

abbrev pub WakerId : Type 0
WakerId = ℕ

abbrev pub PollableId : Type 0
PollableId = ℕ

abbrev pub ExceptionId : Type 0
ExceptionId = ℕ

pub record PollLoop : Type 0 where
  pub wakers : List (PollableId × WakerId)
  pub running : Bool
  pub handles : List HandleId
  pub exception : Option ExceptionId

-- `PollLoop()`
abbrev pub init : PollLoop
init = record { wakers = []; running = false; handles = []; exception = none }

-- `call_soon`, with the handle that it makes.
unfoldable pub call_soon : HandleId → PollLoop → PollLoop
call_soon h l = record l { handles = l.handles ++ h ∷ [] }

-- `register`, up to its `await`.
unfoldable pub register : PollableId → WakerId → PollLoop → PollLoop
register p w l = record l { wakers = l.wakers ++ (p, w) ∷ [] }

-- `stop` and `close`
unfoldable pub stop : PollLoop → PollLoop
stop l = record l { running = false }

-- `context.get("exception", None)`
unfoldable pub call_exception_handler : Option ExceptionId → PollLoop → PollLoop
call_exception_handler e l = record l { exception = e }

unfoldable pub is_closed : PollLoop → Bool
is_closed l = not l.running

-- The calls of the loop's methods that a callback may make.
pub data Call : Type 0 where
  soon : HandleId → Call
  waits : PollableId → WakerId → Call
  stops : Call
  fails : Option ExceptionId → Call

unfoldable pub perform : PollLoop → Call → PollLoop
unfolding call_soon register stop call_exception_handler
perform l (soon h) = call_soon h l
perform l (waits p w) = register p w l
perform l stops = stop l
perform l (fails e) = call_exception_handler e l

-- What is raised out of the loop: the recorded exception, an index of `poll` that is out of range,
-- or a waker that has a result already.
pub data LoopError : Type 0 where
  recorded : ExceptionId → LoopError
  index_error invalid_state : LoopError

abbrev pub or_raise : {A : Type 0} → Option A → LoopError → Result A LoopError
or_raise none e = err e
or_raise (some a) e = ok a

-- `asyncio` and the host, over their own state.
pub record Host (W : Type 0) : Type 0 where
  pub cancelled : W → HandleId → Bool
  pub run : W → HandleId → List Call × W
  pub poll : W → List PollableId → List ℕ × W
  pub exit : W → PollableId → W
  -- `none` where the waker has a result already, or was cancelled: `InvalidStateError`
  pub set_result : W → WakerId → Option (List HandleId) × W
  pub done : W → Bool

-- The loop beside the rest of the world.
pub record State (W : Type 0) : Type 0 where
  pub loop : PollLoop
  pub world : W

-- `self.running = True`
abbrev pub started : {W : Type 0} → State W → State W
started s = record s { loop = record s.loop { running = true } }

-- `ready = [False] * len(pollables)`, and `ready[index] = True` for every index of `poll`.
unfoldable pub mark : List ℕ → List Bool → Result (List Bool) LoopError
mark [] flags = ok flags
mark (i ∷ is) flags = if ltb i (length flags) then mark is (set flags i true) else err index_error

module _ {W : Type 0} (host : Host W) where
  -- `handle._run()` unless it is cancelled
  run_handle : State W → HandleId → State W
  run_handle s h =
      if host.cancelled s.world h
      then s
      else (let (calls, w) = host.run s.world h in
          record { loop = foldl perform s.loop calls; world = w })

  -- The queue is emptied first: what a callback schedules waits for the next turn.
  unfoldable pub run_handles : State W → State W
  unfolding run_handle
  run_handles s =
      foldl run_handle (record s { loop = record s.loop { handles = [] } }) s.loop.handles

  -- `pollable.__exit__(None, None, None)` and `waker.set_result(None)`; the futures that wait for
  -- the waker hand their handles to `call_soon`.
  resolve_waker : PollableId → WakerId → Exec (State W) LoopError (List HandleId)
  resolve_waker p k s =
      let (r, world) = host.set_result (host.exit s.world p) k in
      (or_raise r invalid_state, record s { world = world })

  -- The body of the loop over the wakers for one of them, with `new_wakers` so far.
  wake :
      Bool
      → PollableId × WakerId
      → List (PollableId × WakerId)
      → Exec (State W) LoopError (List (PollableId × WakerId))
  unfolding resolve_waker
  wake false pw kept = pure (kept ++ pw ∷ [])
  wake true (p, k) kept = do
    hs ← resolve_waker p k
    modify (λ t. record t { loop = foldl (λ l h. call_soon h l) t.loop hs })
    pure kept

  unfoldable pub wake_all :
      List Bool
      → List (PollableId × WakerId)
      → List (PollableId × WakerId)
      → Exec (State W) LoopError (List (PollableId × WakerId))
  unfolding wake
  wake_all (b ∷ bs) (pw ∷ ws) kept = wake b pw kept >>= wake_all bs ws
  wake_all _ _ kept = pure kept

  -- `poll.poll(pollables)`
  poll_host : List PollableId → Exec (State W) LoopError (List ℕ)
  poll_host ps s =
      let (indices, world) = host.poll s.world ps in (ok indices, record s { world = world })

  -- `if self.wakers:` with the wakers that there are: wait for the host, wake what is ready and
  -- keep the rest.
  pub poll_list : List (PollableId × WakerId) → Exec (State W) LoopError (Unit {0})
  unfolding poll_host
  poll_list [] = pure tt
  poll_list (pw ∷ ws) = do
    indices ← poll_host (map (λ x. x.0) (pw ∷ ws))
    flags ← lift (mark indices (replicate (length (pw ∷ ws)) false))
    kept ← wake_all flags (pw ∷ ws) []
    modify (λ t. record t { loop = record t.loop { wakers = kept } })

  unfoldable pub poll_wakers : Exec (State W) LoopError (Unit {0})
  unfolding poll_list
  poll_wakers s = poll_list s.loop.wakers s

  -- `if self.exception is not None: raise self.exception`
  raise_recorded : Exec (State W) LoopError (Unit {0})
  raise_recorded s = elim s.loop.exception [ none ↦ (ok tt, s) | some e ↦ (err (recorded e), s) ]

  -- The body of the `while` of `run_until_complete`.
  unfoldable pub turn : Exec (State W) LoopError (Unit {0})
  unfolding run_handles poll_wakers raise_recorded
  turn s = (poll_wakers >> raise_recorded) (run_handles s)

  unfoldable pub turn_if : Unit {0} → Exec (State W) LoopError (Next (Unit {0}) (Unit {0}))
  turn_if _ s =
      if s.loop.running && not (host.done s.world)
      then (turn >> pure (again tt)) s
      else if host.done s.world
      then (ok (return tt), s)
      else (err invalid_state, s)

  -- `asyncio.ensure_future(future, loop=self)`: a coroutine gets a task, whose first step goes to
  -- `call_soon`; a future of the loop stays as it is.
  unfoldable pub ensure_future : Option HandleId → State W → State W
  unfolding call_soon
  ensure_future none s = s
  ensure_future (some h) s = record s { loop = call_soon h s.loop }

  -- `run_until_complete`, up to the value of `future.result()`, which raises where the future is
  -- not done; with the first step of the task that `ensure_future` makes, if it makes one. The fuel
  -- is for its `while`.
  unfoldable pub run_until_complete :
      ℕ → Option HandleId → State W → Option (Result (Unit {0}) LoopError × State W)
  run_until_complete fuel first s = while fuel turn_if tt (started (ensure_future first s))
