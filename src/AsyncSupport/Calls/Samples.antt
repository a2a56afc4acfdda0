-- ===== src/AsyncSupport/Calls/Samples.antt =====
-- Calls of exports whose tasks each wait for one subtask and return.
use pycage.Prelude.{
  ℕ, suc, ◌+◌, ◌≤◌, ◌≡◌, ◌≢◌, refl, Bool, true, false, ◌||◌, none, some, List, [], ◌∷◌, arith, ◌==◌,
  length,
}
use pycage.Result.{Result}
use pycage.AsyncSupport.{TaskId, suspends, parks, Step}
use pycage.AsyncSupport.Samples.{member, greatest, without, member-greatest, member-without}
use pycage.AsyncSupport.Tasks.{RuntimeLaws}
use pycage.AsyncSupport.Foreign.{SetLaws}
use pycage.AsyncSupport.Joining.{TaskCounts, ends_of}
use pycage.AsyncSupport.Wrappers.{
  Progress, waits, returns, Coroutines, wrapped, return_result, runtime_of,
}
use pycage.AsyncSupport.Wrappers.Count.{roots, ReturnLaws}

pub record TwoWorld : Type 0 where
  pub open_waitables : List ℕ
  pub waited : List TaskId
  pub results : List (Result ℕ ℕ)

-- A step of a task, by whether it has waited before.
abbrev advance_of : Bool → TaskId → TwoWorld → (List TaskId × Progress ℕ ℕ) × TwoWorld
advance_of true t w = (([], returns (40 + t)), w)
advance_of false t w =
    let x = suc (greatest w.open_waitables) in
    (([], waits x), record w { open_waitables = x ∷ w.open_waitables; waited = t ∷ w.waited })

abbrev pub coroutines : Coroutines TwoWorld ℕ ℕ
coroutines = record {
  export_index = λ t. some 0;
  cancelled = λ w t. false;
  advance = λ w t. advance_of (member t w.waited) t w;
  exception_of = λ e. e;
  call_task_return = λ i r w. (none, record w { results = r ∷ w.results });
  waitable_set_new = λ w. (7, w);
  waitable_set_drop = λ w set. w;
  waitable_join = λ w x set. w;
  subtask_drop = λ w x. record w { open_waitables = without x w.open_waitables };
}

abbrev step_of : Bool → TaskId → TwoWorld → Step × TwoWorld
step_of c t w =
    let ((spawned, progress), w) = advance_of c t w in
    let (ended, w) = wrapped coroutines (some 0) progress w in
    (record { spawned = spawned; ended = ended }, w)

pub never_parks_here : (c : Bool) (t : TaskId) (w : TwoWorld) → (step_of c t w).0.ended ≢ parks
unfolding wrapped return_result
never_parks_here false t w e = cc
never_parks_here true t w e = cc

pub step-work : (c : Bool) (t : TaskId) (w : TwoWorld) → 0 + length (step_of c t w).0.spawned ≤ 0
unfolding wrapped return_result
step-work false t w = omega arith
step-work true t w = omega arith

pub step-fresh :
    (c : Bool) (t : TaskId) (w : TwoWorld) (x : ℕ)
    → (step_of c t w).0.ended ≡ suspends x
    → member x w.open_waitables ≡ false
unfolding wrapped return_result
step-fresh false t w x e =
    ground (arith, member-greatest (greatest w.open_waitables) w.open_waitables)
step-fresh true t w x e = cc

pub step-suspends :
    (c : Bool) (t : TaskId) (w : TwoWorld) (x y : ℕ)
    → (step_of c t w).0.ended ≡ suspends x
    → member y (step_of c t w).1.open_waitables ≡ (x == y || member y w.open_waitables)
unfolding wrapped return_result
step-suspends false t w x y e = ground arith
step-suspends true t w x y e = cc

pub step-keeps :
    (c : Bool) (t : TaskId) (w : TwoWorld) (y : ℕ)
    → member y w.open_waitables ≡ true
    → member y (step_of c t w).1.open_waitables ≡ true
unfolding wrapped return_result
step-keeps false t w y e = ground arith
step-keeps true t w y e = e

abbrev pub laws : RuntimeLaws (runtime_of coroutines)
laws = record {
  outstanding = λ w x. member x w.open_waitables;
  work = λ w. 0;
  never_cancelled = λ w t. refl;
  never_parks = λ w t. never_parks_here (member t w.waited) t w;
  resume-work = λ w t. step-work (member t w.waited) t w;
  resume-fresh = λ w t. step-fresh (member t w.waited) t w;
  resume-suspends = λ w t. step-suspends (member t w.waited) t w;
  resume-keeps = λ w t. step-keeps (member t w.waited) t w;
  new-outstanding = λ w y. refl;
  new-work = λ w. refl;
  join-outstanding = λ w x set y. refl;
  join-work = λ w x set. refl;
  drop-outstanding = λ w x y. member-without x y w.open_waitables;
  drop-work = λ w x. refl;
}

pub advance-returned :
    (c : Bool) (t : TaskId) (w : TwoWorld) → length (advance_of c t w).1.results ≡ length w.results
advance-returned false t w = refl
advance-returned true t w = refl

pub advance-plain :
    (c : Bool) (t : TaskId) (w : TwoWorld) → roots coroutines (advance_of c t w).0.0 ≡ 0
advance-plain false t w = refl
advance-plain true t w = refl

abbrev pub counts : ReturnLaws coroutines
counts = record {
  returned = λ w. length w.results;
  call-returned = λ i r w e. refl;
  advance-returned = λ w t. advance-returned (member t w.waited) t w;
  new-returned = λ w. refl;
  join-returned = λ w x set. refl;
  drop-returned = λ w x. refl;
  set_drop-returned = λ w set. refl;
  spawned-plain = λ w t. advance-plain (member t w.waited) t w;
}

abbrev pub sets : SetLaws laws
sets = record { set_drop-outstanding = λ w set y. refl; set_drop-work = λ w set. refl }

pub step-ended :
    (c : Bool) (t : TaskId) (w : TwoWorld)
    → length (step_of c t w).1.results ≡ length w.results + ends_of (step_of c t w).0.ended
unfolding wrapped return_result
step-ended false t w = omega arith
step-ended true t w = omega arith

pub step-spawned :
    (c : Bool) (t : TaskId) (w : TwoWorld) → ◌≡◌ {A = ℕ} 0 (0 + length (step_of c t w).0.spawned)
unfolding wrapped return_result
step-spawned false t w = refl
step-spawned true t w = refl

abbrev pub tasks : TaskCounts (runtime_of coroutines)
tasks = record {
  spawned = λ w. 0;
  ended = λ w. length w.results;
  resume-spawned = λ w t. step-spawned (member t w.waited) t w;
  resume-ended = λ w t. step-ended (member t w.waited) t w;
  new-counts = λ w. (refl, refl);
  join-counts = λ w x set. (refl, refl);
  set_drop-counts = λ w set. (refl, refl);
  drop-counts = λ w x. (refl, refl);
}
