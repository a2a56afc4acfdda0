-- ===== src/AsyncSupport/Wrappers/Samples.antt =====
-- A call whose coroutine spawns a task, waits for a waitable and returns.
use pycage.Prelude.{
  ℕ, zero, suc, ◌+◌, ◌≤◌, ◌<◌, ◌≡◌, ◌≢◌, refl, Bool, true, false, Option, none, some, List, [], ◌∷◌,
  arith, ◌==◌, ◌||◌, length,
}
use pycage.Result.{Result}
use pycage.AsyncSupport.{TaskId, Waitable, lookup, suspends, parks, Step, FutureState, Guest}
use pycage.AsyncSupport.Samples.{
  World, member, greatest, without, member-greatest, member-without, spawn_some, spawn_some-le,
}
use pycage.AsyncSupport.Tasks.{RuntimeLaws}
use pycage.AsyncSupport.Budget.{AwaitLaws}
use pycage.AsyncSupport.Wrappers.Serving.{Reports}
use pycage.AsyncSupport.Wrappers.{
  Progress, waits, returns, Coroutines, wrapped, return_result, wrap_spawned, runtime_of,
}
use pycage.AsyncSupport.Wrappers.Count.{roots, ReturnLaws}

pub record CallWorld : Type 0 where
  pub base : World
  pub results : List (Result ℕ ℕ)

abbrev root_of : Bool → Option ℕ
root_of true = some 0
root_of false = none

abbrev advance_of : Bool → Bool → CallWorld → (List TaskId × Progress ℕ ℕ) × CallWorld
advance_of true false w =
    let x = suc (greatest w.base.open_waitables) in
    let (ts, n) = spawn_some w.base.spawns_left in
    (
      (ts, waits x),
      record w {
        base = record {
          open_waitables = x ∷ w.base.open_waitables;
          has_waited = true;
          spawns_left = n;
        };
      },
    )
advance_of _ _ w = (([], returns 42), w)

abbrev pub coroutines : Coroutines CallWorld ℕ ℕ
coroutines = record {
  export_index = λ t. root_of (t == 1);
  cancelled = λ w t. false;
  advance = λ w t. advance_of (t == 1) w.base.has_waited w;
  exception_of = λ e. e;
  call_task_return = λ i r w. (none, record w { results = r ∷ w.results });
  waitable_set_new = λ w. (7, w);
  waitable_set_drop = λ w set. w;
  waitable_join = λ w x set. w;
  subtask_drop =
      λ w x. record w { base = record w.base { open_waitables = without x w.base.open_waitables } };
}

-- A step of the wrapped task, by whether it is of `first_poll` and whether it has waited.
abbrev step_of : Bool → Bool → CallWorld → Step × CallWorld
step_of b c w =
    let ((spawned, progress), w) = advance_of b c w in
    let (ended, w) = wrapped coroutines (root_of b) progress w in
    (record { spawned = spawned; ended = ended }, w)

pub never_parks_here : (b c : Bool) (w : CallWorld) → (step_of b c w).0.ended ≢ parks
unfolding wrapped return_result wrap_spawned
never_parks_here true false w e = cc
never_parks_here true true w e = cc
never_parks_here false c w e = cc

pub step-work :
    (b c : Bool) (w : CallWorld)
    → (step_of b c w).1.base.spawns_left + length (step_of b c w).0.spawned ≤ w.base.spawns_left
unfolding wrapped return_result wrap_spawned
step-work true false w = spawn_some-le w.base.spawns_left
step-work true true w = omega arith
step-work false c w = omega arith

pub step-fresh :
    (b c : Bool) (w : CallWorld) (x : ℕ)
    → (step_of b c w).0.ended ≡ suspends x
    → member x w.base.open_waitables ≡ false
unfolding wrapped return_result wrap_spawned
step-fresh true false w x e =
    ground (arith, member-greatest (greatest w.base.open_waitables) w.base.open_waitables)
step-fresh true true w x e = cc
step-fresh false c w x e = cc

pub step-suspends :
    (b c : Bool) (w : CallWorld) (x y : ℕ)
    → (step_of b c w).0.ended ≡ suspends x
    → member y (step_of b c w).1.base.open_waitables ≡ (x == y || member y w.base.open_waitables)
unfolding wrapped return_result wrap_spawned
step-suspends true false w x y e = ground arith
step-suspends true true w x y e = cc
step-suspends false c w x y e = cc

pub step-keeps :
    (b c : Bool) (w : CallWorld) (y : ℕ)
    → member y w.base.open_waitables ≡ true
    → member y (step_of b c w).1.base.open_waitables ≡ true
unfolding wrapped return_result wrap_spawned
step-keeps true false w y e = ground arith
step-keeps true true w y e = e
step-keeps false c w y e = e

abbrev pub laws : RuntimeLaws (runtime_of coroutines)
laws = record {
  outstanding = λ w x. member x w.base.open_waitables;
  work = λ w. w.base.spawns_left;
  never_cancelled = λ w t. refl;
  never_parks = λ w t. never_parks_here (t == 1) w.base.has_waited w;
  resume-work = λ w t. step-work (t == 1) w.base.has_waited w;
  resume-fresh = λ w t. step-fresh (t == 1) w.base.has_waited w;
  resume-suspends = λ w t. step-suspends (t == 1) w.base.has_waited w;
  resume-keeps = λ w t. step-keeps (t == 1) w.base.has_waited w;
  new-outstanding = λ w y. refl;
  new-work = λ w. refl;
  join-outstanding = λ w x set y. refl;
  join-work = λ w x set. refl;
  drop-outstanding = λ w x y. member-without x y w.base.open_waitables;
  drop-work = λ w x. refl;
}

pub advance-returned :
    (b c : Bool) (w : CallWorld) → length (advance_of b c w).1.results ≡ length w.results
advance-returned true false w = refl
advance-returned true true w = refl
advance-returned false c w = refl

spawned-roots : (n : ℕ) → roots coroutines (spawn_some n).0 ≡ 0
spawned-roots zero = refl
spawned-roots (suc n) = refl

pub advance-plain : (b c : Bool) (w : CallWorld) → roots coroutines (advance_of b c w).0.0 ≡ 0
advance-plain true false w = spawned-roots w.base.spawns_left
advance-plain true true w = refl
advance-plain false c w = refl

abbrev pub counts : ReturnLaws coroutines
counts = record {
  returned = λ w. length w.results;
  call-returned = λ i r w e. refl;
  advance-returned = λ w t. advance-returned (t == 1) w.base.has_waited w;
  new-returned = λ w. refl;
  join-returned = λ w x set. refl;
  drop-returned = λ w x. refl;
  set_drop-returned = λ w set. refl;
  spawned-plain = λ w t. advance-plain (t == 1) w.base.has_waited w;
}

abbrev pub fresh : Guest CallWorld
fresh = record {
  exception = none;
  slot = none;
  world = record {
    base = record { open_waitables = []; has_waited = false; spawns_left = 1 };
    results = [];
  };
}

abbrev pub waiting_state : FutureState
waiting_state = record {
  waitable_set = some 7;
  futures = (1, 1) ∷ [];
  handles = [];
  pending_count = 1;
}

abbrev pub waiting : Guest CallWorld
waiting = record {
  exception = none;
  slot = some waiting_state;
  world = record {
    base = record { open_waitables = 1 ∷ []; has_waited = true; spawns_left = 0 };
    results = [];
  };
}

abbrev awaits_left : Bool → ℕ
awaits_left true = 0
awaits_left false = 1

pub step-awaits :
    (b c : Bool) (w : CallWorld)
    → c ≡ w.base.has_waited
    → awaits_left (step_of b c w).1.base.has_waited ≤ awaits_left w.base.has_waited
unfolding wrapped return_result wrap_spawned
step-awaits true false w e = ground arith
step-awaits true true w e = omega arith
step-awaits false c w e = omega arith

pub suspend-awaits :
    (b c : Bool) (w : CallWorld) (x : ℕ)
    → c ≡ w.base.has_waited
    → (step_of b c w).0.ended ≡ suspends x
    → awaits_left (step_of b c w).1.base.has_waited < awaits_left w.base.has_waited
unfolding wrapped return_result wrap_spawned
suspend-awaits true false w x e h = ground arith
suspend-awaits true true w x e h = cc
suspend-awaits false c w x e h = cc

abbrev pub bounds : AwaitLaws (runtime_of coroutines)
bounds = record {
  awaits = λ w. awaits_left w.base.has_waited;
  resume-awaits = λ w t. step-awaits (t == 1) w.base.has_waited w refl;
  suspend-awaits = λ w t x. suspend-awaits (t == 1) w.base.has_waited w x refl;
  new-awaits = λ w. refl;
  join-awaits = λ w x set. refl;
  drop-awaits = λ w x. refl;
}

-- The host reports the first subtask that is waited for.
abbrev first_key : List (Waitable × TaskId) → Waitable
first_key [] = 0
first_key ((x, t) ∷ fs) = x

abbrev held_key : Option FutureState → Waitable
held_key none = 0
held_key (some s) = first_key s.futures

abbrev pub next : Guest CallWorld → Waitable
next g = held_key g.slot

first_key-lookup : (fs : List (Waitable × TaskId)) → fs ≢ [] → lookup (first_key fs) fs ≢ none
first_key-lookup [] n e = n refl
first_key-lookup ((x, t) ∷ fs) n e = absurd (ground arith)

pub next-Reports : Reports counts laws bounds next
next-Reports s g e idle = rw e (first_key-lookup s.futures idle.waiting)
