-- ===== src/AsyncSupport/Calls/Alone.antt =====
-- What one call of `first_poll` or `callback` leaves, and what it leaves alone.
use pycage.Prelude.{
  ℕ, suc, ◌+◌, ◌≤◌, ◌<◌, ◌≡◌, refl, true, false, Option, none, some, arith, ap, ◌==◌, length, inl,
  inr, ◌⊎◌, subst, Bool-cases,
}
use pycage.Result.{Result, ok, err}
use pycage.Loop.{Returns, Returns-and, Returns-weaken}
use pycage.AsyncSupport.{
  FutureState, Guest, SupportError, TaskId, Waitable, ExceptionId, lookup, poll, first_state,
  first_poll, callback,
}
use pycage.AsyncSupport.Dict.{lookup-remove_ne}
use pycage.AsyncSupport.Tasks.{RuntimeLaws, IsConsistent}
use pycage.AsyncSupport.Delivery.{Expected, woken, dropped, dropped-outstanding, callback-Delivers}
use pycage.AsyncSupport.Callback.{IsIdle, Answers, first_poll-Answers, callback-Answers}
use pycage.AsyncSupport.Leaving.{Leaves, poll-Leaves}
use pycage.AsyncSupport.Joining.{TaskCounts, Joins, run_task-Joins, set_drop-Joins}
use pycage.AsyncSupport.Foreign.{
  SetLaws, IsForeign, Minds, run_task-Minds, set_drop-Minds, emptied-Minds,
}
use pycage.AsyncSupport.Wrappers.{Coroutines, runtime_of}
use pycage.AsyncSupport.Wrappers.Count.{is_root, roots, suspended_roots, ReturnLaws}
use pycage.AsyncSupport.Wrappers.Sequences.{Event}
use pycage.AsyncSupport.Wrappers.Returns.{IsOwing, Owes, first_poll-Owes, callback-Owes}

module _ {W V E : Type 0} {coroutines : Coroutines W V E} (counts : ReturnLaws coroutines)
    (laws : RuntimeLaws (runtime_of coroutines)) (sets : SetLaws laws)
    (tasks : TaskCounts (runtime_of coroutines)) where
  open counts use {returned}
  open tasks use {spawned, ended}
  open laws use {work, outstanding}

  -- The results that a call still owes.
  abbrev pub owed : Option FutureState → ℕ
  owed none = 0
  owed (some s) = roots coroutines s.handles + suspended_roots coroutines s.futures

  -- The tasks of a call that have not ended.
  abbrev pub pending : Option FutureState → ℕ
  pending none = 0
  pending (some s) = s.pending_count

  -- What the call leaves in its slot, if anything, is idle. What was foreign to it is still
  -- outstanding, and none of its tasks waits for it. Unless an exception is recorded, what the host
  -- was given and what the call owes make `total`, and the tasks that it has begun have ended or are
  -- pending in the slot.
  pub record Settled (total : ℕ) (s : FutureState) (e : Option ExceptionId) (w : W) (g : Guest W)
      : Type 0 where
    pub idle : (s' : FutureState) → g.slot ≡ some s' → IsIdle laws s' g.world
    pub kept : (y : Waitable) → IsForeign laws s w y → outstanding g.world y ≡ true
    pub unwanted :
        (y : Waitable)
        → IsForeign laws s w y
        → (s' : FutureState) → g.slot ≡ some s'
        → lookup y s'.futures ≡ none
    pub bounded : work g.world ≤ work w
    pub owing : g.exception ≡ none → (e ≡ none) × (returned g.world + owed g.slot ≡ total)
    pub joined : g.exception ≡ none → Joins laws tasks s.pending_count w (pending g.slot) g.world

  module _ (total : ℕ) (s : FutureState) (e : Option ExceptionId) (w : W) where
    -- What the tasks of the call keep, from its start.
    abbrev Goes : FutureState → Option ExceptionId → W → Type 0
    Goes s' e' w' =
        Minds laws s e w s' e' w' × Joins laws tasks s.pending_count w s'.pending_count w'

    abbrev Left : Result ℕ SupportError → Guest W → Type 0
    Left r g = Answers laws r g × (Owes counts laws total r g × Leaves laws Goes r g)

    emptied_slot :
        (s' : FutureState) (g : Guest W)
        → Goes s' g.exception g.world
        → g.slot ≡ none
        → (g.exception ≡ none → (returned g.world ≡ total) × (s'.pending_count ≡ 0))
        → Settled total s e w g
    emptied_slot s' g (m, j) n q = record {
      idle = λ s' h. cc (h, n);
      kept = λ y f. (m.foreign y f).0;
      unwanted = λ y f s' h. cc (h, n);
      bounded = m.bounded;
      owing = λ x. (m.recorded_before x, rw n (omega (arith, (q x).0)));
      joined = λ x. rw n (omega (arith, j, (q x).1));
    }

    filled_slot :
        (s' : FutureState) (g : Guest W)
        → Goes s' g.exception g.world
        → g.slot ≡ some s'
        → IsIdle laws s' g.world
        → IsOwing counts laws total s' g.world
        → Settled total s e w g
    filled_slot s' g (m, j) h i q = record {
      idle = λ t k. subst (λ x. IsIdle laws x g.world) {x = s'} {y = t} (cc (h, k)) i;
      kept = λ y f. (m.foreign y f).0;
      unwanted = λ y f t k.
          subst (λ (x : FutureState). lookup y x.futures ≡ none) {x = s'} {y = t} (cc (h, k))
            (m.foreign y f).1;
      bounded = m.bounded;
      owing = λ x. (m.recorded_before x, rw h (omega (arith, q)));
      joined = λ x. rw h j;
    }

    Left-Settled : (r : Result ℕ SupportError) (g : Guest W) → Left r g → Settled total s e w g
    Left-Settled (err x) g ((y, a, b), (o, (s', m, n))) = emptied_slot s' g m n (λ q. cc (b, q))
    Left-Settled (ok code) g (a, (inl (c, o), (s', m, inl (d, n, z)))) =
        emptied_slot s' g m n (λ _. (o, z))
    Left-Settled (ok code) g (a, (inl (c, o), (s', m, inr (d, n)))) = absurd (d c)
    Left-Settled (ok code) g (a, (inr (t, c, k, o), (s', m, inl (d, n, z)))) = absurd (c d)
    Left-Settled (ok code) g (inl b, (inr (t, c, k, o), (s', m, inr (d, n)))) = absurd (d b)
    Left-Settled (ok code) g (inr (set, u, b, v, l, i), (inr (t, c, k, o), (s', m, inr (d, n)))) =
        filled_slot s' g m n (subst (λ x. IsIdle laws x g.world) {x = u} {y = s'} (cc (l, n)) i)
          (subst (λ x. IsOwing counts laws total x g.world) {x = t} {y = s'} (cc (k, n)) o)

    poll-Goes :
        (fuel : ℕ) (s' : FutureState) (g : Guest W)
        → work g.world + length s'.handles < fuel
        → IsConsistent laws 0 s' g.world
        → Goes s' g.exception g.world
        → g.slot ≡ none
        → Returns (Leaves laws Goes) (poll (runtime_of coroutines) fuel s' g)
    poll-Goes =
        poll-Leaves laws Goes
          (λ n t a c (m, j). (
            run_task-Minds laws s e w t a m,
            run_task-Joins laws tasks s.pending_count w n t a c j,
          ))
          (λ s' e' w' (m, j). (emptied-Minds laws s e w s' e' w' m, j))
          (λ s' e' w' set (m, j). (
            set_drop-Minds laws s e w sets s' e' w' set m,
            set_drop-Joins laws tasks s.pending_count w s'.pending_count w' set j,
          ))

    Settled-of :
        (o : Option (Result ℕ SupportError × Guest W))
        → Returns (Answers laws) o
        → Returns (Owes counts laws total) o
        → Returns (Leaves laws Goes) o
        → Returns (λ _. Settled total s e w) o
    Settled-of o a b c =
        Returns-weaken Left (λ _. Settled total s e w) o Left-Settled
          (Returns-and (Answers laws) (λ r g. Owes counts laws total r g × Leaves laws Goes r g) o a
            (Returns-and (Owes counts laws total) (Leaves laws Goes) o b c))

  pub first_poll-Settled :
      (fuel : ℕ) (t : TaskId) (g : Guest W)
      → g.slot ≡ none
      → is_root coroutines (coroutines.export_index t) ≡ 1
      → work g.world + 1 < fuel
      → Returns
          (λ _. Settled (suc (returned g.world)) (first_state t) g.exception g.world)
          (first_poll (runtime_of coroutines) fuel t g)
  unfolding first_poll
  first_poll-Settled fuel t g free root enough =
      Settled-of (suc (returned g.world)) (first_state t) g.exception g.world
        (first_poll (runtime_of coroutines) fuel t g) (first_poll-Answers laws fuel t g enough)
        (first_poll-Owes counts laws fuel t g root enough)
        (poll-Goes (suc (returned g.world)) (first_state t) g.exception g.world fuel (first_state t)
          g enough
          (record { counted = omega arith; known = tt; distinct = tt; has_set = λ e. refl })
          (
            record { foreign = λ y h. h; bounded = omega arith; recorded_before = λ h. h },
            omega arith,
          )
          free)

  delivered-Minds :
      (s s' : FutureState) (e : Option ExceptionId) (w w' : W)
      → (s' ≡ s) × (w' ≡ w)
        ⊎ ((x : Waitable) × (t : TaskId) × (lookup x s.futures ≡ some t)
            × (s' ≡ woken laws x t s)
            × (w' ≡ dropped laws x w))
      → Minds laws s e w s' e w'
  delivered-Minds s s' e w w' (inl (a, b)) =
      rw (a, b) (record { foreign = λ y h. h; bounded = omega arith; recorded_before = λ h. h })
  delivered-Minds s s' e w w' (inr (x, t, l, a, b)) =
      rw (a, b)
        (record {
          foreign = λ y (o, f).
              (dropped-outstanding laws x w y (o, other y f), lookup-remove_ne x y s.futures f);
          bounded =
              omega
                (arith, laws.drop-work (coroutines.waitable_join w x 0) x, laws.join-work w x 0);
          recorded_before = λ h. h;
        })
    where
      other : (y : Waitable) → lookup y s.futures ≡ none → (x == y) ≡ false
      other y f = elim (Bool-cases (x == y)) [
        | inl q ↦ let same : x ≡ y = ground arith in absurd (ground (arith, l, f, same))
        | inr q ↦ q
      ]

  delivered-Joins :
      (s s' : FutureState) (w w' : W)
      → (s' ≡ s) × (w' ≡ w)
        ⊎ ((x : Waitable) × (t : TaskId) × (lookup x s.futures ≡ some t)
            × (s' ≡ woken laws x t s)
            × (w' ≡ dropped laws x w))
      → Joins laws tasks s.pending_count w s'.pending_count w'
  delivered-Joins s s' w w' (inl (a, b)) = rw (a, b) (omega arith)
  delivered-Joins s s' w w' (inr (x, t, l, a, b)) =
      rw (a, b)
        (omega
          (arith, tasks.drop-counts (coroutines.waitable_join w x 0) x, tasks.join-counts w x 0))

  pub callback-Settled :
      (fuel : ℕ) (v : Event) (s : FutureState) (g : Guest W)
      → work g.world + 1 < fuel
      → g.slot ≡ some s
      → IsIdle laws s g.world
      → Expected laws v.event v.waitable v.status s
      → Returns
          (λ _. Settled (returned g.world + owed (some s)) s g.exception g.world)
          (callback (runtime_of coroutines) fuel v.event v.waitable v.status g)
  callback-Settled fuel v s g enough held i h =
      Settled-of (returned g.world + owed (some s)) s g.exception g.world
        (callback (runtime_of coroutines) fuel v.event v.waitable v.status g)
        (callback-Answers laws fuel v.event v.waitable v.status s g more held i.consistent h)
        (callback-Owes counts laws (returned g.world + owed (some s)) fuel v.event v.waitable
          v.status s g more held i.consistent h (omega arith))
        leaves
    where
      more : work g.world + length s.handles + 1 < fuel
      more = omega (arith, ap length i.drained)

      leaves :
          Returns
            (Leaves laws (Goes (returned g.world + owed (some s)) s g.exception g.world))
            (callback (runtime_of coroutines) fuel v.event v.waitable v.status g)
      leaves =
          let (s', w', answer, c', small, how) =
            callback-Delivers laws fuel v.event v.waitable v.status s g held i.consistent h in
          rw answer (
            poll-Goes (returned g.world + owed (some s)) s g.exception g.world fuel s'
              (record g { slot = none; world = w' }) (omega (arith, more)) c'
              (delivered-Minds s s' g.exception g.world w' how, delivered-Joins s s' g.world w' how)
              refl)
