-- ===== src/Async/StaticThreadPool/Work.antt =====
-- include/azul/async/StaticThreadPool.hpp: what each step of a thread does.
use libazul.Base.{
  All, ℕ, ◌≡◌, refl, subst, ◌⊎◌, true, false, List, [], ◌∷◌, ◌++◌, length, length-append, ap, ◌<◌,
  Option, some, none, Result, ok, ◌==◌, ==_iff, Bool-cases, inl, inr, arith,
}
use libazul.Async.FutureState.{Exception, Outcome}
use libazul.Async.Future.{Store, mem}
use libazul.Async.Future.Termination.{IsOrdered}
use libazul.Async.Future.Settle.{Settled}
use libazul.Async.Promise.Preserves.{Effect-Preserves}
use libazul.Async.Promise.Kept.{AllMade-Effect}
use libazul.Async.Task.{Task, task_is_ready}
use libazul.Async.Task.Total.{Ran, run_task-Ran, destroy-Ran, Ran-trans}
use libazul.Async.StaticThreadPool.{next_task, finish_task}
use libazul.Async.StaticThreadPool.NextTask.{IsNext, next_task-IsNext}
use libazul.Async.StaticThreadPool.Waiting.{
  Expected, Served-is_ready, InOrder, InOrder-take, InOrder-Preserves,
}
use libazul.Async.StaticThreadPool.Threads.{
  System, promises, IsIdle, IsBelow, Inv, Work, takes, finishes, leaves,
}

module _ {V : Type 0} where
  -- The promises of a list with one task more.
  pub mem-promises_middle :
      (s : ℕ) (xs ys : List (Task V)) (t : Task V)
      → mem s (promises (xs ++ t ∷ ys)) ≡ true
      → (t.promise ≡ s) ⊎ (mem s (promises (xs ++ ys)) ≡ true)
  mem-promises_middle s [] ys t m = elim (Bool-cases (t.promise == s)) [
    | inl e ↦ inl ((==_iff t.promise s).0 e)
    | inr n ↦ inr (rw n at m)
  ]
  mem-promises_middle s (x ∷ xs) ys t m = elim (Bool-cases (x.promise == s)) [
    | inl e ↦ inr (ground arith)
    | inr n ↦ elim (mem-promises_middle s xs ys t (rw n at m)) [
      | inl e ↦ inl e
      | inr i ↦ inr (ground arith)
    ]
  ]

-- What holds of all tasks of a list with one task more.
pub All-middle :
    {V : Type 0} (P : Task V → Type 0) (xs ys : List (Task V)) (t : Task V)
    → All P (xs ++ t ∷ ys)
    → P t × All P (xs ++ ys)
All-middle P [] ys t h = h
All-middle P (x ∷ xs) ys t (h, hs) = let (k, ks) = All-middle P xs ys t hs in (k, (h, ks))

module _ {V : Type 0} (call : ℕ → Outcome V → Result Exception (Option V)) where
  -- A task that a thread took is run, and its promise is set before it goes.
  pub finish_task-Ran :
      (t : Task V) (σ : Store V)
      → IsOrdered σ
      → (τ : Store V) × (finish_task call t σ ≡ ok τ) × Ran t.promise σ τ
  unfolding finish_task
  finish_task-Ran t σ o =
      let (ρ, e, r) = run_task-Ran call t σ o in
      let (τ, e', q) = destroy-Ran call t.promise ρ r.ordered in
      (τ, rw (e, e') refl, Ran-trans t.promise σ ρ τ r q)

  -- Where a thread has a task, it can finish it.
  pub running_finishes :
      (S : System V) (t : Task V) (ts : List (Task V))
      → IsOrdered S.store
      → S.running ≡ t ∷ ts
      → (T : System V) × Work call S T
  running_finishes S t ts i e =
      let (τ, e', r) = finish_task-Ran t S.store i in
      (record S { running = ts; store = τ }, finishes S t [] ts τ e e')

  -- Where no thread has a task, the first one can be taken.
  first_taken :
      (S : System V) (t : Task V) (ts : List (Task V))
      → Inv S
      → 0 < S.threads
      → S.running ≡ []
      → S.pool.tasks ≡ t ∷ ts
      → (T : System V) × Work call S T
  first_taken S t ts i served none_runs e = go (next_task S.store S.pool.tasks) refl
    where
      ready : task_is_ready S.store t ≡ true
      ready =
          let h : InOrder S.store.next S.store [] (t ∷ ts) =
            subst (λ us. InOrder S.store.next S.store [] us) e
              (subst (λ us. InOrder S.store.next S.store (promises us) S.pool.tasks) none_runs
                i.in_order) in
          Served-is_ready S.store.next S.store t h.0

      found : IsNext S.store (t ∷ ts) (next_task S.store S.pool.tasks)
      found =
          subst (λ us. IsNext S.store us (next_task S.store S.pool.tasks)) e
            (next_task-IsNext S.store S.pool.tasks)

      go :
          (r : Option (Task V × List (Task V)))
          → next_task S.store S.pool.tasks ≡ r
          → (T : System V) × Work call S T
      go (some (u, rest)) n =
          (_, takes S u rest i.going_on (omega (arith, served, ap length none_runs)) n)
      go none n =
          let w : IsNext S.store (t ∷ ts) none = rw n at found in
          let waits : task_is_ready S.store t ≡ false = w.0 in absurd (cc (ready))

  -- A pool with work to do and a thread can do some of it.
  pub Inv-progress :
      (S : System V) → Inv S → 0 < S.threads → IsIdle S ⊎ ((T : System V) × Work call S T)
  Inv-progress S i served = go S.running S.pool.tasks refl refl
    where
      go :
          (rs ts : List (Task V))
          → S.running ≡ rs
          → S.pool.tasks ≡ ts
          → IsIdle S ⊎ ((T : System V) × Work call S T)
      go [] [] e f = inl (f, e)
      go (r ∷ rs) ts e f = inr (running_finishes S r rs i.ordered e)
      go [] (t ∷ ts) e f = inr (first_taken S t ts i served e f)

  -- Each step keeps that.
  pub Work-Inv : {S T : System V} → Work call S T → Inv S → Inv T
  Work-Inv (takes S t rest g free n) i = record {
    going_on = i.going_on;
    ordered = i.ordered;
    made = i.made;
    queued_made = (kept (rw n at (next_task-IsNext S.store S.pool.tasks))).1;
    running_made = ((kept (rw n at (next_task-IsNext S.store S.pool.tasks))).0, i.running_made);
    in_order = taken (rw n at (next_task-IsNext S.store S.pool.tasks));
    served = omega (arith, free);
  }
    where
      kept :
          IsNext S.store S.pool.tasks (some (t, rest))
          → IsBelow S.store.next t × All (IsBelow S.store.next) rest
      kept (xs, ys, e, e', _, _) =
          rw e' (All-middle (IsBelow S.store.next) xs ys t (rw e at i.queued_made))

      taken :
          IsNext S.store S.pool.tasks (some (t, rest))
          → InOrder S.store.next S.store (t.promise ∷ promises S.running) rest
      taken (xs, ys, e, e', _, _) = rw e' (
          InOrder-take S.store.next S.store xs ys t (promises S.running)
            (subst (λ us. InOrder S.store.next S.store (promises S.running) us) e i.in_order))
  Work-Inv (finishes S t xs ys τ e f) i = kept (finish_task-Ran t S.store i.ordered)
    where
      done :
          (u : ℕ)
          → Settled τ t.promise
          → (t.promise ≡ u) ⊎ (mem u (promises (xs ++ ys)) ≡ true)
          → Expected τ (promises (xs ++ ys)) u
      done u d (inl m) = inl (subst (λ x. Settled τ x) m d)
      done u d (inr m) = inr m

      kept :
          (ρ : Store V) × (finish_task call t S.store ≡ ok ρ) × Ran t.promise S.store ρ
          → Inv (record S { running = xs ++ ys; store = τ })
      kept (ρ, f', r) =
          let same : ρ ≡ τ = cc in
          let r' : Ran t.promise S.store τ = subst (λ x. Ran t.promise S.store x) same r in
          record {
            going_on = i.going_on;
            ordered = r'.ordered;
            made = AllMade-Effect S.store τ r'.effect i.made;
            queued_made = rw r'.effect.frees.same_next i.queued_made;
            running_made =
                rw r'.effect.frees.same_next
                  (All-middle (IsBelow S.store.next) xs ys t (rw e at i.running_made)).1;
            in_order =
                InOrder-Preserves S.store.next τ.next S.pool.tasks (promises S.running)
                  (promises (xs ++ ys)) S.store τ
                  (let n : _ = r'.effect.frees.same_next in omega (arith, n))
                  (Effect-Preserves S.store.next S.store τ r'.effect)
                  (λ u m.
                    done u r'.set (
                      mem-promises_middle u xs ys t (subst (λ us. mem u (promises us) ≡ true) e m)))
                  i.in_order;
            served =
                omega
                  (arith, i.served, ap length e, length-append xs (t ∷ ys), length-append xs ys);
          }
  Work-Inv (leaves S g free) i = let h : _ = i.going_on in absurd (cc)
