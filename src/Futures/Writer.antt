-- ===== src/Futures/Writer.antt =====
-- Each future writer writes one value and gives its handle back once, whatever its owner calls.
use pycage.Prelude.{
  ℕ, suc, ◌+◌, ◌≡◌, refl, Option, none, some, List, [], ◌∷◌, ◌++◌, arith, Option-cases, inl, inr,
}
use pycage.Futures.{
  FutureRuntime, FutureWriter, Spawned, method, function, new_writer, write, exit_writer,
  collect_writer, run_one, run_list, run_spawned,
}

-- The calls of an owner, and the turns of the scheduler between them.
pub data WriterCall (A : Type 0) : Type 0 where
  writes : A → WriterCall A
  exits runs : WriterCall A

-- The counts of the values that the host was given, and of the handles that it got back. Every write
-- is answered: none blocks.
pub record WriterLaws {H A : Type 0} (runtime : FutureRuntime H A) : Type 0 where
  pub values : H → ℕ
  pub drops : H → ℕ
  pub write-answered :
      (t x : ℕ) (a : A) (h : H) → (code : ℕ) × ((runtime.future_write t x a h).0 ≡ some code)
  pub write-values :
      (t x : ℕ) (a : A) (h : H) → values (runtime.future_write t x a h).1 ≡ suc (values h)
  pub write-drops : (t x : ℕ) (a : A) (h : H) → drops (runtime.future_write t x a h).1 ≡ drops h
  pub drop-values : (t x : ℕ) (h : H) → values (runtime.future_drop_writable t x h) ≡ values h
  pub drop-drops : (t x : ℕ) (h : H) → drops (runtime.future_drop_writable t x h) ≡ suc (drops h)

module _ {H A : Type 0} (runtime : FutureRuntime H A) where
  -- An exception of a call is the owner's to handle, and the object is used on.
  unfoldable pub call_writer : FutureWriter H A → WriterCall A → FutureWriter H A
  call_writer r (writes a) = (write runtime a r).1
  call_writer r exits = exit_writer runtime r
  call_writer r runs = run_spawned runtime r

  unfoldable pub call_writers : FutureWriter H A → List (WriterCall A) → FutureWriter H A
  call_writers r [] = r
  call_writers r (c ∷ cs) = call_writers (call_writer r c) cs

  -- The last turns: what was spawned is run before the object, which it holds, can be collected.
  abbrev pub collected : FutureWriter H A → FutureWriter H A
  collected r = run_spawned runtime (collect_writer runtime (run_spawned runtime r))

-- A coroutine of the object itself is all that is spawned while the object lives.
AllMethods : {A : Type 0} → List (Spawned A) → Type 0
AllMethods [] = Unit
AllMethods (method a ∷ cs) = AllMethods cs
AllMethods (function x a ∷ cs) = ⊥

AllMethods-append :
    {A : Type 0} (cs : List (Spawned A)) (a : A) → AllMethods cs → AllMethods (cs ++ method a ∷ [])
unfolding AllMethods
AllMethods-append [] a o = tt
AllMethods-append (method b ∷ cs) a o = AllMethods-append cs a o
AllMethods-append (function x b ∷ cs) a o = absurd o

module _ {H A : Type 0} (runtime : FutureRuntime H A) (laws : WriterLaws runtime) where
  open laws use {values, drops}

  abbrev held : Option ℕ → ℕ
  held none = 0
  held (some x) = 1

  -- The finalizer is attached while the handle is held.
  record IsOwned (m n : ℕ) (r : FutureWriter H A) : Type 0 where
    same : r.finalizer ≡ r.handle
    valued : values r.host + held r.handle ≡ m
    balanced : drops r.host + held r.handle ≡ n
    methods : AllMethods r.spawned

  write-IsOwned :
      (m n : ℕ) (a : A) (r : FutureWriter H A)
      → IsOwned m n r
      → IsOwned m n (write runtime a r).1 × ((write runtime a r).1.spawned ≡ r.spawned)
  unfolding write
  write-IsOwned m n a r o = elim (Option-cases r.handle) [
    | inl e ↦ ground arith
    | inr (x, e) ↦ ground (
      arith,
      laws.write-answered r.type_ x a r.host,
      laws.write-values r.type_ x a r.host,
      laws.write-drops r.type_ x a r.host,
      laws.drop-values r.type_ x (runtime.future_write r.type_ x a r.host).1,
      laws.drop-drops r.type_ x (runtime.future_write r.type_ x a r.host).1,
    )
  ]

  run_list-IsOwned :
      (m n : ℕ) (cs : List (Spawned A)) (r : FutureWriter H A)
      → AllMethods cs
      → IsOwned m n r
      → IsOwned m n (run_list runtime cs r) × ((run_list runtime cs r).spawned ≡ r.spawned)
  unfolding AllMethods run_list run_one
  run_list-IsOwned m n [] r a o = (o, refl)
  run_list-IsOwned m n (function x b ∷ cs) r a o = absurd a
  run_list-IsOwned m n (method b ∷ cs) r a o =
      let step = write-IsOwned m n b r o in
      let rest = run_list-IsOwned m n cs (write runtime b r).1 a step.0 in (rest.0, cc)

  run-IsOwned :
      (m n : ℕ) (r : FutureWriter H A)
      → IsOwned m n r
      → IsOwned m n (run_spawned runtime r) × ((run_spawned runtime r).spawned ≡ [])
  unfolding run_spawned AllMethods
  run-IsOwned m n r o =
      run_list-IsOwned m n r.spawned (record r { spawned = [] }) o.methods
        (record { same = o.same; valued = o.valued; balanced = o.balanced; methods = tt })

  exit-IsOwned :
      (m n : ℕ) (r : FutureWriter H A) → IsOwned m n r → IsOwned m n (exit_writer runtime r)
  unfolding exit_writer
  exit-IsOwned m n r o = elim (Option-cases r.handle) [
    | inl e ↦ ground arith
    | inr (x, e) ↦ ground (arith, AllMethods-append r.spawned r.default o.methods)
  ]

  calls-IsOwned :
      (m n : ℕ) (r : FutureWriter H A) (cs : List (WriterCall A))
      → IsOwned m n r
      → IsOwned m n (call_writers runtime r cs)
  unfolding call_writers call_writer
  calls-IsOwned m n r [] o = o
  calls-IsOwned m n r (writes a ∷ cs) o =
      calls-IsOwned m n (write runtime a r).1 cs (write-IsOwned m n a r o).0
  calls-IsOwned m n r (exits ∷ cs) o =
      calls-IsOwned m n (exit_writer runtime r) cs (exit-IsOwned m n r o)
  calls-IsOwned m n r (runs ∷ cs) o =
      calls-IsOwned m n (run_spawned runtime r) cs (run-IsOwned m n r o).0

  -- The finalizer spawns one write of the default where the handle is still held.
  collect-lem :
      (m n : ℕ) (r : FutureWriter H A)
      → IsOwned m n r
      → r.spawned ≡ []
      → (values (run_spawned runtime (collect_writer runtime r)).host ≡ m)
        × (drops (run_spawned runtime (collect_writer runtime r)).host ≡ n)
  unfolding collect_writer run_spawned run_list run_one
  collect-lem m n r o e = elim (Option-cases r.handle) [
    | inl q ↦ ground arith
    | inr (x, q) ↦ ground (
      arith,
      laws.write-answered r.type_ x r.default r.host,
      laws.write-values r.type_ x r.default r.host,
      laws.write-drops r.type_ x r.default r.host,
      laws.drop-values r.type_ x (runtime.future_write r.type_ x r.default r.host).1,
      laws.drop-drops r.type_ x (runtime.future_write r.type_ x r.default r.host).1,
    )
  ]

  -- Where every write is answered, so that none blocks or raises at its `await`, with which its handle
  -- would be lost, a write gives the host one value and a drop gives it one handle, whatever is called on
  -- a new writer, and in whatever order, once it has been collected and all that was spawned has
  -- run, the host was given exactly one value and has got the handle back exactly once.
  pub future_writer_writes_once :
      (t x : ℕ) (a : A) (h : H) (cs : List (WriterCall A))
      → (values (collected runtime (call_writers runtime (new_writer t x a h) cs)).host
          ≡ suc (values h))
        × (drops (collected runtime (call_writers runtime (new_writer t x a h) cs)).host
            ≡ suc (drops h))
  unfolding AllMethods
  future_writer_writes_once t x a h cs =
      let new : IsOwned (suc (values h)) (suc (drops h)) (new_writer t x a h) = record {
        same = refl;
        valued = omega arith;
        balanced = omega arith;
        methods = tt;
      } in
      let called = calls-IsOwned (suc (values h)) (suc (drops h)) (new_writer t x a h) cs new in
      let last =
        run-IsOwned (suc (values h)) (suc (drops h)) (call_writers runtime (new_writer t x a h) cs)
          called in
      collect-lem (suc (values h)) (suc (drops h))
        (run_spawned runtime (call_writers runtime (new_writer t x a h) cs)) last.0 last.1
