-- ===== src/AsyncSupport/Delivery.antt =====
-- What `callback` makes of the events that a waiting call can expect.
use pycage.Prelude.{
  ℕ, ◌+◌, ◌≤◌, ◌≡◌, ◌≢◌, refl, true, false, Option, none, some, [], ◌∷◌, ◌++◌, arith, length, inl,
  inr, ◌⊎◌, Option-cases, ◌==◌, length-append,
}
use pycage.Result.{Result}
use pycage.AsyncSupport.{
  FutureState, Runtime, Guest, SupportError, TaskId, Waitable, event_none, event_subtask,
  status_started, status_returned, lookup, remove, call_soon, poll, callback,
}
use pycage.AsyncSupport.Dict.{All-map, All-remove, Distinct-remove, length-remove}
use pycage.AsyncSupport.Tasks.{RuntimeLaws, IsConsistent}

module _ {W : Type 0} {runtime : Runtime W} (laws : RuntimeLaws runtime) where
  open laws use {work, outstanding}

  -- The events that a host sends to a waiting call: nothing, a subtask that has started, or one
  -- that has returned and that a task is suspended on.
  abbrev pub Expected : ℕ → Waitable → ℕ → FutureState → Type 0
  Expected event x status s =
      (event ≡ event_none)
      ⊎ ((event ≡ event_subtask) × (status ≡ status_started))
      ⊎ ((event ≡ event_subtask) × (status ≡ status_returned) × (lookup x s.futures ≢ none))

  -- The state after the future of `x`, on which `t` is suspended, has its result.
  abbrev pub woken : Waitable → TaskId → FutureState → FutureState
  woken x t s = record s { futures = remove x s.futures; handles = s.handles ++ t ∷ [] }

  abbrev pub dropped : Waitable → W → W
  dropped x w = runtime.subtask_drop (runtime.waitable_join w x 0) x

  pub dropped-outstanding :
      (x : Waitable) (w : W) (y : Waitable)
      → (outstanding w y ≡ true) × ((x == y) ≡ false)
      → outstanding (dropped x w) y ≡ true
  dropped-outstanding x w y h = ground (
    arith,
    laws.drop-outstanding (runtime.waitable_join w x 0) x y,
    laws.join-outstanding w x 0 y,
  )

  pub woken-IsConsistent :
      (x : Waitable) (t : TaskId) (s : FutureState) (w : W)
      → IsConsistent laws 0 s w
      → lookup x s.futures ≡ some t
      → IsConsistent laws 0 (woken x t s) (dropped x w)
  woken-IsConsistent x t s w c e = record {
    counted =
        omega (arith, c.counted, length-remove x s.futures found, length-append s.handles (t ∷ []));
    known =
        All-map (remove x s.futures) (dropped-outstanding x w)
          (All-remove (λ y. outstanding w y ≡ true) x s.futures c.distinct c.known);
    distinct = Distinct-remove x s.futures c.distinct;
    has_set = λ n. omega (arith, c.has_set n, length-remove x s.futures found);
  }
    where
      found : lookup x s.futures ≢ none
      found n = cc (n, e)

  -- The three events reach `_poll` with a consistent state.
  pub callback-started :
      (fuel event : ℕ) (x : Waitable) (status : ℕ) (s : FutureState) (g : Guest W)
      → g.slot ≡ some s
      → (event ≡ event_none) ⊎ ((event ≡ event_subtask) × (status ≡ status_started))
      → callback runtime fuel event x status g ≡ poll runtime fuel s (record g { slot = none })
  unfolding callback
  callback-started fuel event x status s g e h = ground arith

  pub callback-returned :
      (fuel event : ℕ) (x : Waitable) (status : ℕ) (s : FutureState) (g : Guest W) (t : TaskId)
      → g.slot ≡ some s
      → event ≡ event_subtask
      → status ≡ status_returned
      → lookup x s.futures ≡ some t
      → callback runtime fuel event x status g
        ≡ poll runtime fuel (woken x t s) (record g { slot = none; world = dropped x g.world })
  unfolding callback call_soon
  callback-returned fuel event x status s g t e h k l = ground arith

  -- What an event that is expected leads to: `_poll`, with the state as it was, or with the task
  -- of the event's waitable queued.
  abbrev pub Delivers :
      ℕ → FutureState → W → Option (Result ℕ SupportError × Guest W) → Guest W → Type 0
  Delivers fuel s w answer g =
      (s' : FutureState) × (w' : W) × (answer
        ≡ poll runtime fuel s' (record g { slot = none; world = w' }))
      × IsConsistent laws 0 s' w'
      × (work w' + length s'.handles ≤ work w + length s.handles + 1)
      × ((s' ≡ s) × (w' ≡ w)
          ⊎ ((x : Waitable) × (t : TaskId) × (lookup x s.futures ≡ some t)
              × (s' ≡ woken x t s)
              × (w' ≡ dropped x w)))

  pub callback-Delivers :
      (fuel event : ℕ) (x : Waitable) (status : ℕ) (s : FutureState) (g : Guest W)
      → g.slot ≡ some s
      → IsConsistent laws 0 s g.world
      → Expected event x status s
      → Delivers fuel s g.world (callback runtime fuel event x status g) g
  callback-Delivers fuel event x status s g e c (inl h) = (
    s,
    g.world,
    callback-started fuel event x status s g e (inl h),
    c,
    omega arith,
    inl (refl, refl),
  )
  callback-Delivers fuel event x status s g e c (inr (inl h)) = (
    s,
    g.world,
    callback-started fuel event x status s g e (inr h),
    c,
    omega arith,
    inl (refl, refl),
  )
  callback-Delivers fuel event x status s g e c (inr (inr (h, k, n))) =
      elim (Option-cases (lookup x s.futures)) [
        | inl l ↦ absurd (n l)
        | inr (t, l) ↦ (
          woken x t s,
          dropped x g.world,
          callback-returned fuel event x status s g t e h k l,
          woken-IsConsistent x t s g.world c l,
          omega (
            arith,
            length-append s.handles (t ∷ []),
            laws.drop-work (runtime.waitable_join g.world x 0) x,
            laws.join-work g.world x 0,
          ),
          inr (x, t, l, refl, refl),
        )
      ]
