-- ===== src/AsyncSupport/Calls/Orders.antt =====
-- Any order in which the host begins calls of exports and sends the events that they can expect.
use pycage.Prelude.{ℕ, suc, ◌+◌, ◌<◌, ◌≡◌, refl, Option, none, some, List, [], ◌∷◌, arith, ap}
use pycage.Result.{Result}
use pycage.Loop.{Returns}
use pycage.AsyncSupport.{
  FutureState, Guest, SupportError, TaskId, first_state, first_poll, callback,
}
use pycage.AsyncSupport.Tasks.{RuntimeLaws}
use pycage.AsyncSupport.Delivery.{Expected}
use pycage.AsyncSupport.Foreign.{SetLaws}
use pycage.AsyncSupport.Joining.{TaskCounts}
use pycage.AsyncSupport.Wrappers.{Coroutines, runtime_of}
use pycage.AsyncSupport.Wrappers.Count.{is_root, ReturnLaws}
use pycage.AsyncSupport.Wrappers.Sequences.{Event}
use pycage.AsyncSupport.Calls.{Calls, Action, begins, sends, none_yet, seen, settle, act, act_all}
use pycage.AsyncSupport.Calls.Slots.{sum-update, sum-update_above, update-same}
use pycage.AsyncSupport.Calls.Alone.{owed, pending, Settled, first_poll-Settled, callback-Settled}
use pycage.AsyncSupport.Calls.Serving.{IsServing, settled-IsServing}

module _ {W : Type 0} (P : Calls W → Type 0) where
  -- The host gets an answer, and the calls satisfy `P` then.
  abbrev pub Yields : Option (Calls W) → Type 0
  Yields none = ⊥
  Yields (some c) = P c

  -- The calls satisfy `P` where the host gets an answer.
  abbrev pub Then : Option (Calls W) → Type 0
  Then none = Unit {0}
  Then (some c) = P c

module _ {W V E : Type 0} {coroutines : Coroutines W V E} (counts : ReturnLaws coroutines)
    (laws : RuntimeLaws (runtime_of coroutines)) (sets : SetLaws laws)
    (tasks : TaskCounts (runtime_of coroutines)) where
  open counts use {returned}
  open laws use {work, outstanding}

  -- A call begins with a task that is one of `first_poll`, and an event is sent to a call that
  -- waits and can expect it.
  abbrev pub Suits : Action → Calls W → Type 0
  Suits (begins t) c = is_root coroutines (coroutines.export_index t) ≡ 1
  Suits (sends i e) c =
      (s : FutureState) × (c.slots i ≡ some s) × Expected laws e.event e.waitable e.status s

  abbrev pub Fits : ℕ → List Action → Calls W → Type 0
  Fits fuel [] c = Unit {0}
  Fits fuel (a ∷ actions) c =
      Suits a c × Then (Fits fuel actions) (act (runtime_of coroutines) fuel a c)

  none_yet-IsServing : (w : W) → IsServing counts laws sets tasks w (none_yet w)
  none_yet-IsServing w = record {
    idle = λ i s h. absurd (cc h);
    apart = λ i j s s' d h k. absurd (cc h);
    unused = λ i h. refl;
    bounded = omega arith;
    owing = λ e. refl;
    joined = λ e. omega arith;
  }

  module _ (w : W) (fuel : ℕ) (c : Calls W) (enough : work w + 1 < fuel)
      (serving : IsServing counts laws sets tasks w c) where
    begins-IsServing :
        (t : TaskId)
        → is_root coroutines (coroutines.export_index t) ≡ 1
        → Yields
            (IsServing counts laws sets tasks w)
            (act (runtime_of coroutines) fuel (begins t) c)
    unfolding act settle
    begins-IsServing t root = go (first_poll (runtime_of coroutines) fuel t (seen none c)) (
        first_poll-Settled counts laws sets tasks fuel t (seen none c) refl root
          (omega (arith, enough, serving.bounded)))
      where
        go :
            (o : Option (Result ℕ SupportError × Guest W))
            → Returns
                (λ _.
                  Settled counts laws sets tasks
                    (suc (returned c.world))
                    (first_state t)
                    c.exception
                    c.world)
                o
            → Yields (IsServing counts laws sets tasks w) (settle (suc c.begun) c.begun c o)
        go none h = h
        go (some (r, g)) h =
            settled-IsServing counts laws sets tasks w (suc (returned c.world)) (suc c.begun)
              c.begun c (first_state t) g serving (λ j s' d k y n. refl) h (omega arith)
              (omega arith)
              (λ e q. omega (
                arith,
                q,
                serving.owing e,
                sum-update_above (owed counts laws sets tasks) c.begun c.begun g.slot c.slots
                    (omega arith),
                ap (owed counts laws sets tasks) (update-same c.begun g.slot c.slots),
              ))
              (λ e q. omega (
                arith,
                q,
                serving.joined e,
                sum-update_above (pending counts laws sets tasks) c.begun c.begun g.slot c.slots
                    (omega arith),
                ap (pending counts laws sets tasks) (update-same c.begun g.slot c.slots),
              ))

    sends-IsServing :
        (i : ℕ) (e : Event) (s : FutureState)
        → c.slots i ≡ some s
        → Expected laws e.event e.waitable e.status s
        → Yields
            (IsServing counts laws sets tasks w)
            (act (runtime_of coroutines) fuel (sends i e) c)
    unfolding act settle
    sends-IsServing i e s held expected =
        go (callback (runtime_of coroutines) fuel e.event e.waitable e.status (seen (c.slots i) c))
          (callback-Settled counts laws sets tasks fuel e s (seen (c.slots i) c)
            (omega (arith, enough, serving.bounded)) held (serving.idle i s held) expected)
      where
        go :
            (o : Option (Result ℕ SupportError × Guest W))
            → Returns
                (λ _.
                  Settled counts laws sets tasks
                    (returned c.world + owed counts laws sets tasks (some s))
                    s
                    c.exception
                    c.world)
                o
            → Yields (IsServing counts laws sets tasks w) (settle c.begun i c o)
        go none h = h
        go (some (r, g)) h =
            settled-IsServing counts laws sets tasks w
              (returned c.world + owed counts laws sets tasks (some s)) c.begun i c s g serving
              (λ j s' d k. serving.apart j i s' s d k held) h running (omega arith)
              (λ x q. omega (
                arith,
                q,
                serving.owing x,
                sum-update (owed counts laws sets tasks) c.begun i g.slot c.slots running,
                ap (owed counts laws sets tasks) held,
              ))
              (λ x q. omega (
                arith,
                q,
                serving.joined x,
                sum-update (pending counts laws sets tasks) c.begun i g.slot c.slots running,
                ap (pending counts laws sets tasks) held,
              ))
          where
            running : i < c.begun
            running = ground (arith, serving.unused i, held)

    act-IsServing :
        (a : Action)
        → Suits a c
        → Yields (IsServing counts laws sets tasks w) (act (runtime_of coroutines) fuel a c)
    act-IsServing (begins t) root = begins-IsServing t root
    act-IsServing (sends i e) (s, held, expected) = sends-IsServing i e s held expected

  act_all-Serves :
      (actions : List Action) (w : W) (fuel : ℕ) (c : Calls W)
      → work w + 1 < fuel
      → IsServing counts laws sets tasks w c
      → Fits fuel actions c
      → Yields (IsServing counts laws sets tasks w) (act_all (runtime_of coroutines) fuel actions c)
  unfolding act_all
  act_all-Serves [] w fuel c enough serving fits = serving
  act_all-Serves (a ∷ actions) w fuel c enough serving (suits, fits) =
      go (act (runtime_of coroutines) fuel a c)
        (λ c' h f. act_all-Serves actions w fuel c' enough h f)
        (act-IsServing w fuel c enough serving a suits) fits
    where
      go :
          (o : Option (Calls W))
          → ((c' : Calls W)
              → IsServing counts laws sets tasks w c'
              → Fits fuel actions c'
              → Yields
                  (IsServing counts laws sets tasks w)
                  (act_all (runtime_of coroutines) fuel actions c'))
          → Yields (IsServing counts laws sets tasks w) o
          → Then (Fits fuel actions) o
          → Yields
              (IsServing counts laws sets tasks w)
              (elim o [ none ↦ none | some c' ↦ act_all (runtime_of coroutines) fuel actions c' ])
      go none rest h f = h
      go (some c') rest h f = rest c' h f

  -- Where the runtime and the wrapped coroutines keep their laws, the host begins calls of exports,
  -- each with a task of `first_poll`, and sends to those that wait the events that they can expect,
  -- in any order, with fuel for `_Loop.poll` above the tasks that can be spawned and 1. It gets an
  -- answer each time. Behind it each call that waits has left an idle state in its slot, no subtask
  -- is waited for by two calls, and unless an exception is recorded, the results that the host was
  -- given and those that the waiting calls owe are as many as the calls that it began, and the tasks
  -- that were begun or spawned have ended or are pending in a call that waits. So where no call
  -- waits, the host was given as many results as it began calls, and no task is left behind.
  pub act_all-IsServing :
      (fuel : ℕ) (actions : List Action) (w : W)
      → work w + 1 < fuel
      → Fits fuel actions (none_yet w)
      → Yields
          (IsServing counts laws sets tasks w)
          (act_all (runtime_of coroutines) fuel actions (none_yet w))
  act_all-IsServing fuel actions w enough fits =
      act_all-Serves actions w fuel (none_yet w) enough (none_yet-IsServing w) fits
