-- ===== src/AsyncSupport/Budget.antt =====
-- How often a call can still wait: the awaits that its coroutines have left, and the tasks that are
-- suspended.
use pycage.Prelude.{
  ℕ, suc, ◌+◌, ◌<◌, ◌≤◌, ◌≡◌, refl, Option, none, some, [], ◌∷◌, arith, length, ap, inl, inr, ◌⊎◌,
  ◌==◌, Bool-cases, length-append,
}
use pycage.Result.{Result, ok, err}
use pycage.Loop.{Returns}
use pycage.AsyncSupport.{
  FutureState, Runtime, Guest, Active, SupportError, TaskId, Waitable, End, suspends, parks,
  finishes, fails, callback_exit, event_none, event_subtask, status_started, status_returned,
  lookup, finish, join_set, await_result, end_step, run_task, loop_poll, reply, wait_on, poll,
  first_state, first_poll, callback,
}
use pycage.AsyncSupport.Dict.{length-put, length-remove}
use pycage.AsyncSupport.Tasks.{
  RuntimeLaws, IsConsistent, foldl-spawn, resumed, run_task-eq, suspends-fresh,
}
use pycage.AsyncSupport.Load.{end_step-work}
use pycage.AsyncSupport.Polling.{Polled, round-Keeps, loop_poll-Keeps}
use pycage.AsyncSupport.Delivery.{
  woken, dropped, woken-IsConsistent, callback-started, callback-returned,
}

-- A bound on the awaits of waitables that the coroutines have left: each takes one of them, and
-- the host's calls add none.
pub record AwaitLaws {W : Type 0} (runtime : Runtime W) : Type 0 where
  pub awaits : W → ℕ
  pub resume-awaits : (w : W) (t : TaskId) → awaits (runtime.resume w t).1 ≤ awaits w
  pub suspend-awaits :
      (w : W) (t : TaskId) (x : Waitable)
      → (runtime.resume w t).0.ended ≡ suspends x
      → awaits (runtime.resume w t).1 < awaits w
  pub new-awaits : (w : W) → awaits (runtime.waitable_set_new w).1 ≡ awaits w
  pub join-awaits :
      (w : W) (x : Waitable) (set : ℕ) → awaits (runtime.waitable_join w x set) ≡ awaits w
  pub drop-awaits : (w : W) (x : Waitable) → awaits (runtime.subtask_drop w x) ≡ awaits w

module _ {W : Type 0} {runtime : Runtime W} (laws : RuntimeLaws runtime)
    (bounds : AwaitLaws runtime) where
  open laws use {work}
  open bounds use {awaits}

  -- At most `left` more waits for the host, and `spawns` more tasks.
  abbrev pub IsWithin : (left spawns : ℕ) → FutureState → W → Type 0
  IsWithin left spawns s w = (awaits w + length s.futures ≤ left) × (work w ≤ spawns)

  join_set-awaits :
      (set : Option ℕ) (x : Waitable) (w : W) → awaits (join_set runtime set x w).1 ≡ awaits w
  unfolding join_set
  join_set-awaits none x w = ground (
    arith,
    bounds.join-awaits (runtime.waitable_set_new w).1 x (runtime.waitable_set_new w).0,
    bounds.new-awaits w,
  )
  join_set-awaits (some set) x w = bounds.join-awaits w x set

  end_step-awaits :
      (left : ℕ) (t : TaskId) (e : End) (a : Active W)
      → awaits a.guest.world + length a.tasks.futures ≤ left
      → ((x : Waitable)
          → e ≡ suspends x
          → (lookup x a.tasks.futures ≡ none)
            × (awaits a.guest.world + length a.tasks.futures < left))
      → awaits (end_step runtime t e a).guest.world + length (end_step runtime t e a).tasks.futures
        ≤ left
  unfolding end_step await_result finish
  end_step-awaits left t (suspends x) a h k = omega (
    arith,
    k x refl,
    length-put x t a.tasks.futures (k x refl).0,
    join_set-awaits a.tasks.waitable_set x a.guest.world,
  )
  end_step-awaits left t parks a h k = h
  end_step-awaits left t finishes a h k = ground arith
  end_step-awaits left t (fails e) a h k = ground arith

  run_task-IsWithin :
      (left spawns n : ℕ) (t : TaskId) (a : Active W)
      → IsConsistent laws n a.tasks a.guest.world
      → IsWithin left spawns a.tasks a.guest.world
      → IsWithin left spawns (run_task runtime a t).tasks (run_task runtime a t).guest.world
  run_task-IsWithin left spawns n t a c (h, k) = rw (run_task-eq laws a t) (
    end_step-awaits left t (runtime.resume a.guest.world t).0.ended (resumed laws t a)
        (omega (arith, same, h, bounds.resume-awaits a.guest.world t))
        (λ x e. (
          suspends-fresh laws n a t x c e,
          omega (arith, same, h, bounds.suspend-awaits a.guest.world t x e),
        )),
    omega (
      arith,
      end_step-work laws t (runtime.resume a.guest.world t).0.ended (resumed laws t a),
      laws.resume-work a.guest.world t,
      k,
    ),
  )
    where
      same : length (resumed laws t a).tasks.futures ≡ length a.tasks.futures
      same =
          ap (λ (s : FutureState). length s.futures)
            (foldl-spawn laws (runtime.resume a.guest.world t).0.spawned a.tasks)

  abbrev Within : ℕ → ℕ → Active W → Type 0
  Within left spawns a = IsWithin left spawns a.tasks a.guest.world

  -- The bounds hold where the call waits.
  abbrev pub WaitsWithin : ℕ → ℕ → Result ℕ SupportError → Guest W → Type 0
  WaitsWithin left spawns (ok code) g =
      (code ≡ callback_exit)
      ⊎ ((s : FutureState) × (g.slot ≡ some s) × IsWithin left spawns s g.world)
  WaitsWithin left spawns (err e) g = Unit {0}

  wait-Within :
      (left spawns : ℕ) (o : Option ℕ) (a : Active W)
      → Within left spawns a
      → WaitsWithin left spawns (wait_on runtime o a).0 (wait_on runtime o a).1
  unfolding wait_on
  wait-Within left spawns none a h = tt
  wait-Within left spawns (some set) a h = inr (a.tasks, refl, h)

  reply-Within :
      (left spawns : ℕ) (a : Active W)
      → Within left spawns a
      → WaitsWithin left spawns (reply runtime a).0 (reply runtime a).1
  unfolding reply
  reply-Within left spawns a h = elim (Bool-cases (a.tasks.pending_count == 0)) [
    | inl e ↦ rw e (inl refl)
    | inr e ↦ rw e (wait-Within left spawns a.tasks.waitable_set a h)
  ]

  poll-Within :
      (left spawns fuel : ℕ) (s : FutureState) (g : Guest W)
      → work g.world + length s.handles < fuel
      → IsConsistent laws 0 s g.world
      → IsWithin left spawns s g.world
      → Returns (WaitsWithin left spawns) (poll runtime fuel s g)
  unfolding poll
  poll-Within left spawns fuel s g enough c h =
      go (loop_poll runtime fuel (record { tasks = s; guest = g })) (
        loop_poll-Keeps laws (Within left spawns)
          (round-Keeps laws (λ _. Within left spawns)
            (λ n t ts. run_task-IsWithin left spawns (suc n) t))
          fuel (record { tasks = s; guest = g }) enough c h)
    where
      go :
          (o : Option (Result (Unit {0}) SupportError × Active W))
          → Returns (λ r b. Polled laws r b × Within left spawns b) o
          → Returns (WaitsWithin left spawns) (elim o [
            | none ↦ none
            | some (ok _, a) ↦ some (reply runtime a)
            | some (err e, a) ↦ some (err e, a.guest)
          ])
      go none q = q
      go (some (ok u, a)) (p, q) = reply-Within left spawns a q
      go (some (err e, a)) q = tt

  pub first_poll-Within :
      (fuel : ℕ) (t : TaskId) (g : Guest W)
      → work g.world + 1 < fuel
      → Returns (WaitsWithin (awaits g.world) (work g.world)) (first_poll runtime fuel t g)
  unfolding first_poll
  first_poll-Within fuel t g enough =
      poll-Within (awaits g.world) (work g.world) fuel (first_state t) g enough
        (record { counted = omega arith; known = tt; distinct = tt; has_set = λ e. refl })
        (omega arith, omega arith)

  woken-IsWithin :
      (left spawns : ℕ) (x : Waitable) (t : TaskId) (s : FutureState) (w : W)
      → lookup x s.futures ≡ some t
      → IsWithin (suc left) spawns s w
      → IsWithin left spawns (woken laws x t s) (dropped laws x w)
  woken-IsWithin left spawns x t s w l (h, k) = (
    omega (
      arith,
      h,
      length-remove x s.futures (λ n. cc (n, l)),
      bounds.drop-awaits (runtime.waitable_join w x 0) x,
      bounds.join-awaits w x 0,
    ),
    omega (arith, k, laws.drop-work (runtime.waitable_join w x 0) x, laws.join-work w x 0),
  )

  -- The return of a subtask that a task waits for takes one of the waits.
  pub callback-Within :
      (left spawns fuel : ℕ) (x : Waitable) (t : TaskId) (s : FutureState) (g : Guest W)
      → work g.world + 1 < fuel
      → g.slot ≡ some s
      → s.handles ≡ []
      → IsConsistent laws 0 s g.world
      → lookup x s.futures ≡ some t
      → IsWithin (suc left) spawns s g.world
      → Returns (WaitsWithin left spawns) (callback runtime fuel event_subtask x status_returned g)
  callback-Within left spawns fuel x t s g enough e drained c l h =
      rw (callback-returned laws fuel event_subtask x status_returned s g t e refl refl l) (
        poll-Within left spawns fuel (woken laws x t s)
          (record g { slot = none; world = dropped laws x g.world })
          (omega (
            arith,
            ap length drained,
            length-append s.handles (t ∷ []),
            laws.drop-work (runtime.waitable_join g.world x 0) x,
            laws.join-work g.world x 0,
          ))
          (woken-IsConsistent laws x t s g.world c l)
          (woken-IsWithin left spawns x t s g.world l h))

  -- An event that tells of no return takes none.
  pub idle_callback-Within :
      (left spawns fuel event : ℕ) (x : Waitable) (status : ℕ) (s : FutureState) (g : Guest W)
      → work g.world + length s.handles < fuel
      → g.slot ≡ some s
      → (event ≡ event_none) ⊎ ((event ≡ event_subtask) × (status ≡ status_started))
      → IsConsistent laws 0 s g.world
      → IsWithin left spawns s g.world
      → Returns (WaitsWithin left spawns) (callback runtime fuel event x status g)
  idle_callback-Within left spawns fuel event x status s g enough e k c h =
      rw (callback-started laws fuel event x status s g e k)
        (poll-Within left spawns fuel s (record g { slot = none }) enough c h)
