-- ===== src/AsyncSupport/Calls/Serving.antt =====
-- The state of the calls in flight between two actions of the host, and what one answer to the
-- host makes of it.
use pycage.Prelude.{
  ℕ, ◌+◌, ◌≤◌, ◌<◌, ◌≡◌, ◌≢◌, refl, true, none, some, List, [], ◌∷◌, arith, ap, ◌∙◌, ◌==◌, inl, inr,
  subst, Bool-cases, Option-cases, sym,
}
use pycage.AsyncSupport.{FutureState, Guest, TaskId, Waitable, lookup}
use pycage.AsyncSupport.Dict.{All}
use pycage.AsyncSupport.Tasks.{RuntimeLaws}
use pycage.AsyncSupport.Callback.{IsIdle}
use pycage.AsyncSupport.Joining.{TaskCounts, Joins}
use pycage.AsyncSupport.Foreign.{SetLaws, IsForeign}
use pycage.AsyncSupport.Wrappers.{Coroutines, runtime_of}
use pycage.AsyncSupport.Wrappers.Count.{ReturnLaws}
use pycage.AsyncSupport.Calls.{Calls, update}
use pycage.AsyncSupport.Calls.Slots.{sum, update-same, update-other}
use pycage.AsyncSupport.Calls.Alone.{owed, pending, Settled}

All-lookup :
    (P : Waitable → Type 0) (fs : List (Waitable × TaskId)) (y : Waitable)
    → All P fs
    → lookup y fs ≢ none
    → P y
All-lookup P [] y a n = absurd (n refl)
All-lookup P ((x, t) ∷ fs) y a n = elim (Bool-cases (y == x)) [
  | inl e ↦ let same : x ≡ y = ground arith in subst P same a.0
  | inr e ↦ All-lookup P fs y a.1 (λ q. n (rw e q))
]

lookup-All :
    (P : Waitable → Type 0) (fs : List (Waitable × TaskId))
    → ((y : Waitable) → lookup y fs ≢ none → P y)
    → All P fs
lookup-All P [] h = tt
lookup-All P ((x, t) ∷ fs) h = (
  h x (λ q. absurd (ground arith)),
  lookup-All P fs (λ y n. h y (λ q.
      n (elim (Bool-cases (y == x)) [ inl e ↦ absurd (ground arith) | inr e ↦ ground arith ]))),
)

module _ {W V E : Type 0} {coroutines : Coroutines W V E} (counts : ReturnLaws coroutines)
    (laws : RuntimeLaws (runtime_of coroutines)) (sets : SetLaws laws)
    (tasks : TaskCounts (runtime_of coroutines)) where
  open counts use {returned}
  open tasks use {spawned, ended}
  open laws use {work, outstanding}

  -- No task of the one call waits for what a task of the other waits for.
  abbrev pub AreApart : FutureState → FutureState → Type 0
  AreApart s s' = (y : Waitable) → lookup y s.futures ≢ none → lookup y s'.futures ≡ none

  -- What holds of the calls, which began in the world `w`: each call in the slots is idle; two calls
  -- wait for no subtask in common; and unless an exception is recorded, the results that the host was
  -- given since, and those that the calls owe, are as many as the calls that have begun, and the
  -- tasks that were begun or spawned since have ended, or are pending in a slot.
  pub record IsServing (w : W) (c : Calls W) : Type 0 where
    pub idle : (i : ℕ) (s : FutureState) → c.slots i ≡ some s → IsIdle laws s c.world
    pub apart :
        (i j : ℕ) (s s' : FutureState)
        → i ≢ j
        → c.slots i ≡ some s
        → c.slots j ≡ some s'
        → AreApart s s'
    pub unused : (i : ℕ) → c.begun ≤ i → c.slots i ≡ none
    pub bounded : work c.world ≤ work w
    pub owing :
        c.exception ≡ none
        → returned c.world + sum (owed counts laws sets tasks) c.begun c.slots
          ≡ returned w + c.begun
    pub joined :
        c.exception ≡ none
        → spawned c.world + ended w + c.begun
          ≡ sum (pending counts laws sets tasks) c.begun c.slots + ended c.world + spawned w

  -- An idle call stays idle in a world where what it waits for is still outstanding.
  still-IsIdle :
      (s : FutureState) (w w' : W)
      → IsIdle laws s w
      → ((y : Waitable) → lookup y s.futures ≢ none → outstanding w' y ≡ true)
      → IsIdle laws s w'
  still-IsIdle s w w' i h = record {
    consistent = record {
      counted = i.consistent.counted;
      known = lookup-All (λ x. outstanding w' x ≡ true) s.futures h;
      distinct = i.consistent.distinct;
      has_set = i.consistent.has_set;
    };
    drained = i.drained;
    waiting = i.waiting;
  }

  -- What another idle call waits for is foreign to a call that is apart from it.
  other-IsForeign :
      (s s' : FutureState) (w : W)
      → IsIdle laws s' w
      → AreApart s' s
      → (y : Waitable) → lookup y s'.futures ≢ none
      → IsForeign laws s w y
  other-IsForeign s s' w i a y n =
      (All-lookup (λ x. outstanding w x ≡ true) s'.futures y i.consistent.known n, a y n)

  -- The call `i` was handed to the code with the state `s`, apart from every other call, and has
  -- left `g`.
  module _ (w : W) (total n i : ℕ) (c : Calls W) (s : FutureState) (g : Guest W)
      (serving : IsServing w c)
      (alone : (j : ℕ) (s' : FutureState) → j ≢ i → c.slots j ≡ some s' → AreApart s' s)
      (settled : Settled counts laws sets tasks total s c.exception c.world g) where
    wanted_elsewhere :
        (j : ℕ) (s' : FutureState)
        → j ≢ i
        → c.slots j ≡ some s'
        → (y : Waitable) → lookup y s'.futures ≢ none
        → IsForeign laws s c.world y
    wanted_elsewhere j s' k h = other-IsForeign s s' c.world (serving.idle j s' h) (alone j s' k h)

    new_idle :
        (j : ℕ) (s' : FutureState) → update i g.slot c.slots j ≡ some s' → IsIdle laws s' g.world
    new_idle j s' h = elim (Bool-cases (j == i)) [
      | inl e ↦ settled.idle s' (unfold update in ground (arith, h))
      | inr e ↦
          let other : j ≢ i = ground arith in
          let held : c.slots j ≡ some s' = sym (update-other i j g.slot c.slots other) ∙ h in
          still-IsIdle s' c.world g.world (serving.idle j s' held)
            (λ y n. settled.kept y (wanted_elsewhere j s' other held y n))
    ]

    new_apart :
        (j : ℕ) (s' s'' : FutureState)
        → j ≢ i
        → c.slots j ≡ some s'
        → g.slot ≡ some s''
        → AreApart s' s''
    new_apart j s' s'' k h l y n = settled.unwanted y (wanted_elsewhere j s' k h y n) s'' l

    AreApart-sym : (s' s'' : FutureState) → AreApart s' s'' → AreApart s'' s'
    AreApart-sym s' s'' a y n = elim (Option-cases (lookup y s'.futures)) [
      | inl e ↦ e
      | inr (t, e) ↦ absurd (n (a y (λ q. cc (q, e))))
    ]

    at_index : (j : ℕ) → j ≡ i → update i g.slot c.slots j ≡ g.slot
    at_index j e = ap (update i g.slot c.slots) e ∙ update-same i g.slot c.slots

    all_apart :
        (j k : ℕ) (s' s'' : FutureState)
        → j ≢ k
        → update i g.slot c.slots j ≡ some s'
        → update i g.slot c.slots k ≡ some s''
        → AreApart s' s''
    all_apart j k s' s'' d a b = elim (Bool-cases (j == i)) [
      | inl e ↦
          let here : j ≡ i = ground arith in
          let there : k ≢ i = λ q. d (here ∙ sym q) in
          AreApart-sym s'' s' (
            new_apart k s'' s' there (sym (update-other i k g.slot c.slots there) ∙ b)
              (sym (at_index j here) ∙ a))
      | inr e ↦
          let here : j ≢ i = ground arith in
          let held : c.slots j ≡ some s' = sym (update-other i j g.slot c.slots here) ∙ a in
          elim (Bool-cases (k == i)) [
            | inl f ↦
                let there : k ≡ i = ground arith in
                new_apart j s' s'' here held (sym (at_index k there) ∙ b)
            | inr f ↦
                let there : k ≢ i = ground arith in
                serving.apart j k s' s'' d held (sym (update-other i k g.slot c.slots there) ∙ b)
          ]
    ]

    pub settled-IsServing :
        i < n
        → c.begun ≤ n
        → (c.exception ≡ none
            → returned g.world + owed counts laws sets tasks g.slot ≡ total
            → returned g.world + sum (owed counts laws sets tasks) n (update i g.slot c.slots)
              ≡ returned w + n)
        → (c.exception ≡ none
            → Joins laws tasks s.pending_count c.world
                (pending counts laws sets tasks g.slot)
                g.world
            → spawned g.world + ended w + n
              ≡ sum (pending counts laws sets tasks) n (update i g.slot c.slots)
                + ended g.world
                + spawned w)
        → IsServing w (record {
          exception = g.exception;
          world = g.world;
          begun = n;
          slots = update i g.slot c.slots;
        })
    settled-IsServing lt le counted joins = record {
      idle = new_idle;
      apart = all_apart;
      unused = λ k h.
          update-other i k g.slot c.slots (λ q. absurd (omega (arith, q)))
          ∙ serving.unused k (omega arith);
      bounded = omega (arith, settled.bounded, serving.bounded);
      owing = λ e. counted (settled.owing e).0 (settled.owing e).1;
      joined = λ e. joins (settled.owing e).0 (settled.joined e);
    }
