-- ===== src/Async/StaticThreadPool/Dependencies.antt =====
-- include/azul/async/StaticThreadPool.hpp: a task is not taken before what it depends on is set.
use libazul.Base.{
  not, All, ℕ, ◌<◌, ◌≡◌, refl, subst, Bool, true, List, [], ◌∷◌, map, Option, some, Result, ok,
  Bool-cases, inl, inr, arith,
}
use libazul.Async.FutureState.{Exception, Outcome, is_undefined}
use libazul.Async.Future.{Store, mem}
use libazul.Async.Future.Settle.{Settled}
use libazul.Async.Task.{Task, task_is_ready, ready_in}
use libazul.Async.StaticThreadPool.{Pool, next_task, execute}
use libazul.Async.StaticThreadPool.NextTask.{IsNext, next_task-IsNext}
use libazul.Async.StaticThreadPool.Threads.{System, CanDependOn, IsBelow, Inv, Reached}
use libazul.Async.StaticThreadPool.Work.{All-middle}
use libazul.Async.StaticThreadPool.Execute.{All-last, Executed, execute-Inv}
use libazul.Async.StaticThreadPool.Reached.{Reached-Inv}
use libazul.Async.StaticThreadPool.Held.{
  Later, now, then_works, then_executes, then_calls, WaitsFor, Held, Held-Work, Held-calls,
  Held-Executed,
}

module _ {V : Type 0} (call : ℕ → Outcome V → Result Exception (Option V)) where
  Later-Held :
      (a p : ℕ) (ss : List ℕ) {S T : System V}
      → Later call a S T
      → Held call a p ss S
      → Held call a p ss T
  Later-Held a p ss (now S) h = h
  Later-Held a p ss (then_works S T U l w) h = Held-Work call a p ss w (Later-Held a p ss l h)
  Later-Held a p ss (then_executes S T b func deps g q τ l can e) h =
      let k : Held call a p ss T = Later-Held a p ss l h in
      let x : Executed call b func deps T = execute-Inv call T b func deps k.inv can in
      let r : execute call b func (map some deps) T.pool T.store
          ≡ ok (some x.promise, x.pool, x.store) =
        x.runs in
      let same : x.pool ≡ q = cc in
      let same' : x.store ≡ τ = cc in
      subst (λ y. Held call a p ss (record T { pool = y; store = τ })) same
        (subst (λ y. Held call a p ss (record T { pool = x.pool; store = y })) same'
          (Held-Executed call a p ss T b func deps x k))
  Later-Held a p ss (then_calls S T b τ l o e) h =
      Held-calls call a p ss T b τ o e (Later-Held a p ss l h)

  WaitsFor-older :
      (a p : ℕ) (ts : List (Task V)) → a < p → All (IsBelow a) ts → All (WaitsFor a p) ts
  WaitsFor-older a p [] l h = tt
  WaitsFor-older a p (t ∷ ts) l (h, hs) = (
    ((λ e. omega (arith, e, h)), (λ e. absurd (omega (arith, e, h, l)))),
    WaitsFor-older a p ts l hs,
  )

  -- `Execute` itself.
  Executed-Held :
      (S : System V) (b : Bool) (func : Result Exception (Option V)) (ss : List ℕ)
      (x : Executed call b func ss S)
      → Inv S
      → CanDependOn S ss
      → Held call S.store.next x.promise ss (record S { pool = x.pool; store = x.store })
  Executed-Held S b func ss x i can = record {
    inv = x.inv;
    a_made = omega (arith, x.above, x.is_made);
    p_made = x.is_made;
    each_made = λ s m. (can s m).0;
    queued = rw x.longer (
        All-last (WaitsFor S.store.next x.promise) S.pool.tasks
          (record { dependency = some S.store.next; promise = x.promise; func = func })
          (WaitsFor-older S.store.next x.promise S.pool.tasks x.above i.queued_made)
          ((λ e. omega (arith, e, x.above)), (λ e. refl)));
    running = WaitsFor-older S.store.next x.promise S.running x.above i.running_made;
    guarded = x.guarded;
  }

  -- A task that is ready does not wait for a future that is not set.
  ready-Settled :
      (a p : ℕ) (ss : List ℕ) (T : System V) (t : Task V) (s : ℕ)
      → Held call a p ss T
      → t.dependency ≡ some a
      → task_is_ready T.store t ≡ true
      → mem s ss ≡ true
      → Settled T.store s
  unfolding task_is_ready
  ready-Settled a p ss T t s h d r i = elim (Bool-cases (is_undefined (T.store.states s).state)) [
    | inr set ↦ set
    | inl u ↦
        let (q, n, b, g) = h.guarded s i u in
        let o : is_undefined (T.store.states a).state ≡ true = g.open_still in
        let r' : ready_in T.store (some a) ≡ true = rw d at r in
        let r'' : not true ≡ true = rw o at r' in absurd (cc)
  ]

  -- A thread takes the task of a call of `Execute` only when all the futures on which the task was
  -- made to depend are set, whatever happened in between.
  pub taken_after :
      (S T : System V) (is_void : Bool) (func : Result Exception (Option V)) (ss : List ℕ) (p : ℕ)
      (q : Pool V) (τ : Store V) (t : Task V) (rest : List (Task V))
      → Reached call S
      → CanDependOn S ss
      → execute call is_void func (map some ss) S.pool S.store ≡ ok (some p, q, τ)
      → Later call S.store.next (record S { pool = q; store = τ }) T
      → next_task T.store T.pool.tasks ≡ some (t, rest)
      → t.promise ≡ p
      → (s : ℕ) → mem s ss ≡ true
      → Settled T.store s
  taken_after S T b func ss p q τ t rest r can e later n same s i =
      let inv : Inv S = Reached-Inv call r in
      let x : Executed call b func ss S = execute-Inv call S b func ss inv can in
      go x (Executed-Held S b func ss x inv can)
    where
      found : Held call S.store.next p ss T → Settled T.store s
      found h =
          let (xs, ys, e', _, _, ready) : IsNext T.store T.pool.tasks (some (t, rest)) =
            rw n at (next_task-IsNext T.store T.pool.tasks) in
          let waits : WaitsFor S.store.next p t =
            (All-middle (WaitsFor S.store.next p) xs ys t (rw e' at h.queued)).0 in
          ready-Settled S.store.next p ss T t s h (waits.1 same) ready i

      go :
          (x : Executed call b func ss S)
          → Held call S.store.next x.promise ss (record S { pool = x.pool; store = x.store })
          → Settled T.store s
      go x h =
          let runs : execute call b func (map some ss) S.pool S.store
              ≡ ok (some x.promise, x.pool, x.store) =
            x.runs in
          let same_p : x.promise ≡ p = cc in
          let same_q : x.pool ≡ q = cc in
          let same_τ : x.store ≡ τ = cc in
          let h₁ : Held call S.store.next p ss (record S { pool = x.pool; store = x.store }) =
            subst (λ y. Held call S.store.next y ss (record S { pool = x.pool; store = x.store }))
              same_p h in
          let h₂ : Held call S.store.next p ss (record S { pool = q; store = x.store }) =
            subst (λ y. Held call S.store.next p ss (record S { pool = y; store = x.store })) same_q
              h₁ in
          let h₃ : Held call S.store.next p ss (record S { pool = q; store = τ }) =
            subst (λ y. Held call S.store.next p ss (record S { pool = q; store = y })) same_τ h₂ in
          found (Later-Held S.store.next p ss later h₃)
