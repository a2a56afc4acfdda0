-- ===== src/AsyncSupport/Calls.antt =====
-- guest/componentize_py_async_support/__init__.py: several calls of exports in flight. They share
-- `_loop`, and each has a context slot of its own, which `callback` of that call reads.
pub mod Slots
pub mod Alone
pub mod Serving
pub mod Orders
mod Samples
mod Examples
use pycage.Prelude.{ℕ, suc, Option, none, some, List, [], ◌∷◌, ◌==◌, if◌then◌else◌}
use pycage.Result.{Result}
use pycage.AsyncSupport.{
  FutureState, Runtime, Guest, SupportError, TaskId, ExceptionId, first_poll, callback,
}
use pycage.AsyncSupport.Wrappers.Sequences.{Event}

-- The calls are numbered in the order in which they begin.
pub record Calls (W : Type 0) : Type 0 where
  pub exception : Option ExceptionId
  pub world : W
  pub begun : ℕ
  pub slots : ℕ → Option FutureState

-- What the host does next: it calls an export, or calls `callback` for a call in flight.
pub data Action : Type 0 where
  begins : TaskId → Action
  sends : ℕ → Event → Action

unfoldable pub update : ℕ → Option FutureState → (ℕ → Option FutureState) → ℕ → Option FutureState
update i o f j = if j == i then o else f j

module _ {W : Type 0} where
  abbrev pub none_yet : W → Calls W
  none_yet w = record { exception = none; world = w; begun = 0; slots = λ i. none }

  -- What the code sees of the calls while the host is in a call with this slot.
  abbrev pub seen : Option FutureState → Calls W → Guest W
  seen o c = record { exception = c.exception; slot = o; world = c.world }

  unfoldable pub settle :
      ℕ → ℕ → Calls W → Option (Result ℕ SupportError × Guest W) → Option (Calls W)
  unfolding update
  settle n i c none = none
  settle n i c (some (r, g)) = some (record {
    exception = g.exception;
    world = g.world;
    begun = n;
    slots = update i g.slot c.slots;
  })

  module _ (runtime : Runtime W) where
    unfoldable pub act : ℕ → Action → Calls W → Option (Calls W)
    act fuel (begins t) c = settle (suc c.begun) c.begun c (first_poll runtime fuel t (seen none c))
    act fuel (sends i e) c =
        settle c.begun i c (callback runtime fuel e.event e.waitable e.status (seen (c.slots i) c))

    unfoldable pub act_all : ℕ → List Action → Calls W → Option (Calls W)
    act_all fuel [] c = some c
    act_all fuel (a ∷ actions) c = elim (act fuel a c) [
      | none ↦ none
      | some c' ↦ act_all fuel actions c'
    ]
