-- ===== src/Async/StaticThreadPool/Shutdown.antt =====
-- include/azul/async/StaticThreadPool.hpp: the destructor. The threads are told, they leave
-- `ThreadLoop` and are joined, and then the tasks that are left go: no future is left waiting.
use libazul.Base.{
  All, ℕ, suc, ◌+◌, ◌<◌, ◌≤◌, ◌≡◌, refl, ap, ◌⊎◌, inl, inr, List, [], ◌∷◌, Option, Result, ok, true,
  ◌==◌, ==_iff, Bool-cases, subst, length, dec_lt, arith,
}
use libazul.Async.FutureState.{Exception, Outcome}
use libazul.Async.Future.{Store, destroy_promise, mem}
use libazul.Async.Future.Termination.{IsOrdered}
use libazul.Async.Future.Settle.{Settled, Stays}
use libazul.Async.Promise.{promise_destroy}
use libazul.Async.Promise.Complete.{perform_lem}
use libazul.Async.Task.{Task}
use libazul.Async.StaticThreadPool.{destroy_tasks, shutdown_destroy_remaining_tasks}
use libazul.Async.StaticThreadPool.Threads.{
  System, promises, Inv, Work, takes, finishes, leaves, Works, none_yet, one_more, Reached,
  shutdown_notify_threads,
}
use libazul.Async.StaticThreadPool.Work.{running_finishes}
use libazul.Async.StaticThreadPool.Reached.{Reached-Inv}
use libazul.Async.StaticThreadPool.Drain.{OnItsWay, finishes-OnItsWay}

module _ {V : Type 0} (call : ℕ → Outcome V → Result Exception (Option V)) where
  -- The future of a task is set.
  abbrev pub IsDone : Store V → Task V → Type 0
  IsDone τ t = Settled τ t.promise

  destroy_tasks_lem :
      (ts : List (Task V)) (σ : Store V)
      → IsOrdered σ
      → (τ : Store V) × (destroy_tasks call ts σ ≡ ok τ)
        × IsOrdered τ
        × Stays σ τ
        × All (IsDone τ) ts
  unfolding destroy_tasks promise_destroy
  destroy_tasks_lem [] σ o = (σ, refl, o, λ t h. h, tt)
  destroy_tasks_lem (t ∷ ts) σ o =
      let (ρ, e, p) = perform_lem call (destroy_promise t.promise) σ o in
      let (τ, e', o', s, h) = destroy_tasks_lem ts ρ p.ordered in
      (τ, rw (e) e', o', λ u k. s u (p.stays u k), (s t.promise p.settles, h))

  mem-IsDone :
      (s : ℕ) (ts : List (Task V)) (τ : Store V)
      → mem s (promises ts) ≡ true
      → All (IsDone τ) ts
      → Settled τ s
  mem-IsDone s [] τ m h = absurd (cc)
  mem-IsDone s (t ∷ ts) τ m (h, hs) = elim (Bool-cases (t.promise == s)) [
    | inl e ↦ subst (λ x. Settled τ x) ((==_iff t.promise s).0 e) h
    | inr n ↦ mem-IsDone s ts τ (rw n at m) hs
  ]

  -- A pool whose threads have been told to leave.
  record Closing (S : System V) : Type 0 where
    pub told : S.pool.shutdown_initiated ≡ true
    pub ordered : IsOrdered S.store
    pub served : length S.running ≤ S.threads

  abbrev to_do : System V → ℕ
  to_do S = length S.running + S.threads

  Work-Closing :
      {S T : System V}
      → Work call S T
      → Closing S
      → Closing T × (to_do S ≡ suc (to_do T)) × ((s : ℕ) → OnItsWay call S s → OnItsWay call T s)
  Work-Closing (takes S t rest g free n) c = let h : _ = c.told in absurd (cc)
  Work-Closing (finishes S t xs ys τ e f) c =
      let (less, o, on) = finishes-OnItsWay call S t xs ys τ e f c.ordered in
      (
        record { told = c.told; ordered = o; served = omega (arith, less, c.served) },
        omega (arith, less),
        on,
      )
  Work-Closing (leaves S g free) c = (
    record { told = c.told; ordered = c.ordered; served = omega (arith, free) },
    omega (arith, free),
    λ s h. h,
  )

  Works-Closing :
      {n : ℕ} {S T : System V}
      → Works call n S T
      → Closing S
      → Closing T × (to_do S ≡ n + to_do T) × ((s : ℕ) → OnItsWay call S s → OnItsWay call T s)
  Works-Closing (none_yet S) c = (c, omega arith, λ s h. h)
  Works-Closing (one_more n S T U w ws) c =
      let (c', less, on) = Work-Closing w c in
      let (c'', less', on') = Works-Closing ws c' in
      (c'', omega (arith, less, less'), λ s h. on' s (on s h))

  -- A thread finishes its task; where none has a task, one leaves.
  Closing-progress : (S : System V) → Closing S → 0 < S.threads → (T : System V) × Work call S T
  Closing-progress S c some_thread = go S.running refl
    where
      go : (ts : List (Task V)) → S.running ≡ ts → (T : System V) × Work call S T
      go (t ∷ ts) e = running_finishes call S t ts c.ordered e
      go [] e = (_, leaves S c.told (omega (arith, some_thread, ap length e)))

  -- `ShutdownDestroyRemainingTasks` returns, and then what was on its way is set.
  abbrev pub Destroyed : System V → System V → Type 0
  Destroyed S T =
      (τ : Store V) × (shutdown_destroy_remaining_tasks call T.pool T.store
        ≡ ok (record (T.pool) { tasks = [] }, τ))
      × IsOrdered τ
      × ((s : ℕ) → OnItsWay call S s → Settled τ s)

  joined-Destroyed :
      (S T : System V)
      → Closing T
      → T.threads ≡ 0
      → ((s : ℕ) → OnItsWay call S s → OnItsWay call T s)
      → Destroyed S T
  unfolding shutdown_destroy_remaining_tasks
  joined-Destroyed S T c gone on =
      let (τ, e, o, s, h) = destroy_tasks_lem T.pool.tasks T.store c.ordered in
      (τ, rw e refl, o, λ u k. done T.running refl τ s h u (on u k))
    where
      done :
          (rs : List (Task V))
          → T.running ≡ rs
          → (τ : Store V) → Stays T.store τ
          → All (IsDone τ) T.pool.tasks
          → (u : ℕ) → OnItsWay call T u
          → Settled τ u
      done rs e τ s h u (inl d) = s u d
      done rs e τ s h u (inr (inr m)) = mem-IsDone u T.pool.tasks τ m h
      done (r ∷ rs) e τ s h u (inr (inl m)) = absurd (omega (arith, c.served, gone, ap length e))
      done [] e τ s h u (inr (inl m)) =
          let m' : mem u (promises {V = V} []) ≡ true = rw e at m in absurd (cc)

  -- Whatever state a pool has come to, with any number of threads: once `ShutdownNotifyThreads` has
  -- told its threads, they make at most one step for each task that runs and one for each thread. As
  -- long as a thread is in `ThreadLoop` some thread can make a step; when none is left, so that
  -- `ShutdownJoinThreads` returns, `ShutdownDestroyRemainingTasks` returns too, and what was set
  -- before the destructor is set, and so is the future of every task that ran or waited then.
  pub shutdown-settles :
      (n : ℕ) (S T : System V)
      → Reached call S
      → Works call n (shutdown_notify_threads S) T
      → (n ≤ length S.running + S.threads)
        × (((0 < T.threads) × ((U : System V) × Work call T U)) ⊎ ((T.threads ≡ 0) × Destroyed S T))
  unfolding shutdown_notify_threads
  shutdown-settles n S T r ws = go (Works-Closing ws closing)
    where
      closing : Closing (shutdown_notify_threads S)
      closing =
          let i : Inv S = Reached-Inv call r in
          record { told = refl; ordered = i.ordered; served = i.served }

      go :
          Closing T
            × (to_do (shutdown_notify_threads S) ≡ n + to_do T)
            × ((s : ℕ) → OnItsWay call (shutdown_notify_threads S) s → OnItsWay call T s)
          → (n ≤ length S.running + S.threads)
            × (((0 < T.threads) × ((U : System V) × Work call T U))
                ⊎ ((T.threads ≡ 0) × Destroyed S T))
      go (c, count, on) = (
        omega (arith, count),
        elim (dec_lt 0 T.threads) [
          | yes p ↦ inl (p, Closing-progress T c p)
          | no z ↦ let e : T.threads ≡ 0 = omega arith in inr (e, joined-Destroyed S T c e on)
        ],
      )
