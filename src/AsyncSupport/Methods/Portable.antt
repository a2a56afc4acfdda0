-- ===== src/AsyncSupport/Methods/Portable.antt =====
-- A program that keeps to what both event loops take cannot tell them apart.
use pycage.Prelude.{◌≡◌, Bool, true, false, not, ◌&&◌, List, [], ◌∷◌}
use pycage.Result.{Result}
use pycage.Exec.{Exec}
use pycage.Asyncio.{
  LoopMethod, shutdown_asyncgens, call_soon, create_task, Refusal, Use, calls, awaits,
}
use pycage.PollLoop.EventLoop.{PollLoop}
use pycage.PollLoop.EventLoop
use pycage.AsyncSupport
use pycage.PollLoop.EventLoop.Methods
use pycage.AsyncSupport.Methods.{Loop}

-- What both loops take: a `call_soon` with a context, a `create_task` with neither a name nor a
-- context, and every method but `shutdown_asyncgens`.
abbrev pub is_portable_method : LoopMethod → Bool
is_portable_method shutdown_asyncgens = false
is_portable_method (call_soon h context) = context
is_portable_method (create_task h keywords) = not keywords
is_portable_method _ = true

abbrev pub is_portable_use : Use → Bool
is_portable_use (calls m) = is_portable_method m
is_portable_use (awaits m) = is_portable_method m

abbrev pub is_portable : List Use → Bool
is_portable [] = true
is_portable (u ∷ us) = is_portable_use u && is_portable us

-- Both loops run or are stopped, with the same handles and the same exception.
pub record Alike (l : PollLoop) (a : Loop) : Type 0 where
  pub running : l.running ≡ a.running
  pub exception : l.exception ≡ a.exception
  pub handles : l.handles ≡ a.tasks.handles

-- The same answer or the same error, and loops that are alike again.
abbrev pub SameRun : {A : Type 0} → Result A Refusal × PollLoop → Result A Refusal × Loop → Type 0
SameRun r q = (r.0 ≡ q.0) × Alike r.1 q.1
