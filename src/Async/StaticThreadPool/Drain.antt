-- ===== src/Async/StaticThreadPool/Drain.antt =====
-- include/azul/async/StaticThreadPool.hpp: a pool comes to an end with its tasks, however the steps
-- of its threads follow each other.
use libazul.Base.{
  ℕ, suc, ◌+◌, ◌*◌, ◌≤◌, ◌<◌, ◌≡◌, refl, ◌∙◌, subst, ap, ◌⊎◌, true, List, [], ◌∷◌, ◌++◌, Option,
  some, Result, ok, length, length-append, inl, inr, arith,
}
use libazul.Async.FutureState.{Exception, Outcome}
use libazul.Async.Future.{Store, mem}
use libazul.Async.Future.Termination.{IsOrdered}
use libazul.Async.Future.Settle.{Settled}
use libazul.Async.Task.{Task}
use libazul.Async.Task.Total.{Ran}
use libazul.Async.StaticThreadPool.{finish_task}
use libazul.Async.StaticThreadPool.NextTask.{IsNext, next_task-IsNext}
use libazul.Async.StaticThreadPool.Threads.{
  System, promises, Pending, load, IsIdle, Inv, Work, takes, finishes, leaves, Works, none_yet,
  one_more, Reached,
}
use libazul.Async.StaticThreadPool.Reached.{Reached-Inv}
use libazul.Async.StaticThreadPool.Work.{
  finish_task-Ran, Work-Inv, Inv-progress, mem-promises_middle,
}

module _ {V : Type 0} (call : ℕ → Outcome V → Result Exception (Option V)) where
  -- The task of a state waits, runs, or has set it.
  abbrev pub OnItsWay : System V → ℕ → Type 0
  OnItsWay T s = Settled T.store s ⊎ Pending T s

  running_or_set :
      (s : ℕ) (xs ys : List (Task V)) (t : Task V) (τ : Store V) (tasks : List (Task V))
      → Settled τ t.promise
      → (t.promise ≡ s) ⊎ (mem s (promises (xs ++ ys)) ≡ true)
      → Settled τ s ⊎ ((mem s (promises (xs ++ ys)) ≡ true) ⊎ (mem s (promises tasks) ≡ true))
  running_or_set s xs ys t τ tasks d (inl e) = inl (subst (λ x. Settled τ x) e d)
  running_or_set s xs ys t τ tasks d (inr m) = inr (inl m)

  -- A thread that finishes a task has set its promise, and the other tasks are still on their way.
  pub finishes-OnItsWay :
      (S : System V) (t : Task V) (xs ys : List (Task V)) (τ : Store V)
      → S.running ≡ xs ++ t ∷ ys
      → finish_task call t S.store ≡ ok τ
      → IsOrdered S.store
      → (length S.running ≡ suc (length (xs ++ ys)))
        × IsOrdered τ
        × ((s : ℕ) → OnItsWay S s → OnItsWay (record S { running = xs ++ ys; store = τ }) s)
  finishes-OnItsWay S t xs ys τ e f o = kept (finish_task-Ran call t S.store o)
    where
      kept :
          (ρ : Store V) × (finish_task call t S.store ≡ ok ρ) × Ran t.promise S.store ρ
          → (length S.running ≡ suc (length (xs ++ ys)))
            × IsOrdered τ
            × ((s : ℕ) → OnItsWay S s → OnItsWay (record S { running = xs ++ ys; store = τ }) s)
      kept (ρ, f', r) =
          let same : ρ ≡ τ = cc in
          let r' : Ran t.promise S.store τ = subst (λ x. Ran t.promise S.store x) same r in
          (
            omega (arith, ap length e, length-append xs (t ∷ ys), length-append xs ys),
            r'.ordered,
            λ s h. elim h [
              | inl d ↦ inl (r'.effect.stays s d)
              | inr (inl m) ↦
                  running_or_set s xs ys t τ S.pool.tasks r'.set
                    (mem-promises_middle s xs ys t (rw e at m))
              | inr (inr m) ↦ inr (inr m)
            ],
          )

  -- A step leaves every task on its way and every thread in its loop, and there is less to do.
  Work-OnItsWay :
      {S T : System V}
      → Work call S T
      → Inv S
      → (load S ≡ suc (load T)) × (T.threads ≡ S.threads) × ((s : ℕ) → OnItsWay S s → OnItsWay T s)
  Work-OnItsWay (takes S t rest g free n) i =
      taken (rw n at (next_task-IsNext S.store S.pool.tasks))
    where
      moved :
          (s : ℕ) (xs ys : List (Task V))
          → rest ≡ xs ++ ys
          → (t.promise ≡ s) ⊎ (mem s (promises (xs ++ ys)) ≡ true)
          → (mem s (promises (t ∷ S.running)) ≡ true) ⊎ (mem s (promises rest) ≡ true)
      moved s xs ys e (inl m) = inl (ground arith)
      moved s xs ys e (inr m) = inr (rw e m)

      taken :
          IsNext S.store S.pool.tasks (some (t, rest))
          → (load S ≡ suc (2 * length rest + suc (length S.running)))
            × (S.threads ≡ S.threads)
            × ((s : ℕ)
                → OnItsWay S s
                → Settled S.store s
                  ⊎ ((mem s (promises (t ∷ S.running)) ≡ true) ⊎ (mem s (promises rest) ≡ true)))
      taken (xs, ys, e, e', _, _) = (
        omega (arith, ap length e, ap length e', length-append xs (t ∷ ys), length-append xs ys),
        refl,
        λ s h. elim h [
          | inl d ↦ inl d
          | inr (inl m) ↦ inr (inl (ground arith))
          | inr (inr m) ↦ inr (moved s xs ys e' (mem-promises_middle s xs ys t (rw e at m)))
        ],
      )
  Work-OnItsWay (finishes S t xs ys τ e f) i =
      let (less, _, on) = finishes-OnItsWay S t xs ys τ e f i.ordered in
      (omega (arith, less), refl, on)
  Work-OnItsWay (leaves S g free) i = let h : _ = i.going_on in absurd (cc)

  Works-OnItsWay :
      {n : ℕ} {S T : System V}
      → Works call n S T
      → Inv S
      → Inv T
        × (load S ≡ n + load T)
        × (T.threads ≡ S.threads)
        × ((s : ℕ) → OnItsWay S s → OnItsWay T s)
  Works-OnItsWay (none_yet S) i = (i, omega arith, refl, λ s h. h)
  Works-OnItsWay (one_more n S T U w ws) i =
      let (less, same, on) = Work-OnItsWay w i in
      let (i', less', same', on') = Works-OnItsWay ws (Work-Inv call w i) in
      (i', omega (arith, less, less'), same' ∙ same, λ s h. on' s (on s h))

  -- With nothing left to do, what was on its way is set.
  pub Idle-Settled : (T : System V) (s : ℕ) → IsIdle T → OnItsWay T s → Settled T.store s
  Idle-Settled T s (a, b) (inl d) = d
  Idle-Settled T s (a, b) (inr (inl m)) =
      let m' : mem s (promises {V = V} []) ≡ true = rw b at m in absurd (cc)
  Idle-Settled T s (a, b) (inr (inr m)) =
      let m' : mem s (promises {V = V} []) ≡ true = rw a at m in absurd (cc)

  -- A pool whose steps of threads, in any order, have come to `T`: they were no more than there was
  -- to do; either some thread can go on, or there is nothing left and all futures are set.
  abbrev pub DrainsTo : ℕ → System V → System V → Type 0
  DrainsTo n S T =
      (n ≤ load S)
      × (((U : System V) × Work call T U)
          ⊎ (IsIdle T × ((s : ℕ) → Pending S s → Settled T.store s)))

  Works-DrainsTo :
      {n : ℕ} {S T : System V} → Works call n S T → Inv S → 0 < S.threads → DrainsTo n S T
  Works-DrainsTo {S = S} {T = T} ws i some_thread =
      let (i', count, same, on) = Works-OnItsWay ws i in
      (
        omega (arith, count),
        elim (Inv-progress call T i' (omega (arith, some_thread, same))) [
          | inl idle ↦ inr (idle, λ s p. Idle-Settled T s idle (on s (inr p)))
          | inr more ↦ inl more
        ],
      )

  -- In a pool with at least one thread, whatever was added to it, and in whatever order its threads, those who add tasks and those
  -- who call promises have gone on: from then on the threads make at most two steps for each task,
  -- as long as tasks are left some thread can go on, and when none is left the futures of all tasks
  -- are set.
  pub pool_drains :
      (n : ℕ) (S T : System V) → Reached call S → 0 < S.threads → Works call n S T → DrainsTo n S T
  pool_drains n S T r some_thread ws = Works-DrainsTo ws (Reached-Inv call r) some_thread
