-- ===== src/Async/StaticThreadPool/Threads.antt =====
-- include/azul/async/StaticThreadPool.hpp: the threads of a pool, whose steps follow each other in
-- any order. A thread takes a task while `_mutex` is locked, and runs it while it is not, so other
-- threads take and run theirs in between.
use libazul.Base.{
  All, ℕ, suc, ◌+◌, ◌-◌, ◌*◌, ◌<◌, ◌≤◌, ◌≡◌, ◌⊎◌, Bool, true, false, List, [], ◌∷◌, ◌++◌, map,
  Option, some, Result, ok, length,
}
use libazul.Async.FutureState.{Exception, Outcome}
use libazul.Async.Future.{Store, Action, mem}
use libazul.Async.Future.Termination.{IsOrdered}
use libazul.Async.Future.Settle.{Settled}
use libazul.Async.Promise.{perform}
use libazul.Async.Promise.Kept.{AllMade}
use libazul.Async.Task.{Task}
use libazul.Async.StaticThreadPool.{Pool, next_task, execute, finish_task}
use libazul.Async.StaticThreadPool.Waiting.{InOrder}

-- The pool, how many threads are in `ThreadLoop`, the tasks that they have taken and not finished,
-- and the store.
pub record System (V : Type 0) : Type 0 where
  pub pool : Pool V
  pub threads : ℕ
  pub running : List (Task V)
  pub store : Store V

module _ {V : Type 0} where
  abbrev pub promises : List (Task V) → List ℕ
  promises ts = map (λ t. t.promise) ts

  -- The state is that of a task which is queued or runs.
  abbrev pub Pending : System V → ℕ → Type 0
  Pending S s = (mem s (promises S.running) ≡ true) ⊎ (mem s (promises S.pool.tasks) ≡ true)

  abbrev pub load : System V → ℕ
  load S = 2 * length S.pool.tasks + length S.running

  abbrev pub IsIdle : System V → Type 0
  IsIdle S = (S.pool.tasks ≡ []) × (S.running ≡ [])

  -- A task can depend on futures that are set, and on those of the tasks that run or wait.
  abbrev pub CanDependOn : System V → List ℕ → Type 0
  CanDependOn S ss =
      (s : ℕ) → mem s ss ≡ true → (s < S.store.next) × (Settled S.store s ⊎ Pending S s)

  -- The state of the task is made.
  abbrev pub IsBelow : ℕ → Task V → Type 0
  IsBelow n t = t.promise < n

  -- What holds at every time.
  pub record Inv (S : System V) : Type 0 where
    pub going_on : S.pool.shutdown_initiated ≡ false
    pub ordered : IsOrdered S.store
    pub made : AllMade S.store
    pub queued_made : All (IsBelow S.store.next) S.pool.tasks
    pub running_made : All (IsBelow S.store.next) S.running
    pub in_order : InOrder S.store.next S.store (promises S.running) S.pool.tasks
    pub served : length S.running ≤ S.threads

  -- `ShutdownNotifyThreads`
  unfoldable pub shutdown_notify_threads : System V → System V
  shutdown_notify_threads S = record S { pool = record (S.pool) { shutdown_initiated = true } }

module _ {V : Type 0} (call : ℕ → Outcome V → Result Exception (Option V)) where
  -- A step of a thread of the pool: one that has no task takes one, one finishes its task, and one
  -- that has no task leaves `ThreadLoop`.
  pub data Work : System V → System V → Type 0 where
    takes :
        (S : System V) (t : Task V) (rest : List (Task V))
        → S.pool.shutdown_initiated ≡ false
        → length S.running < S.threads
        → next_task S.store S.pool.tasks ≡ some (t, rest)
        → Work S (record S { pool = record (S.pool) { tasks = rest }; running = t ∷ S.running })
    finishes :
        (S : System V) (t : Task V) (xs ys : List (Task V)) (τ : Store V)
        → S.running ≡ xs ++ t ∷ ys
        → finish_task call t S.store ≡ ok τ
        → Work S (record S { running = xs ++ ys; store = τ })
    leaves :
        (S : System V)
        → S.pool.shutdown_initiated ≡ true
        → length S.running < S.threads
        → Work S (record S { threads = S.threads - 1 })

  -- Steps of threads, counted.
  pub data Works : ℕ → System V → System V → Type 0 where
    none_yet : (S : System V) → Works 0 S S
    one_more : (n : ℕ) (S T U : System V) → Work S T → Works n T U → Works (suc n) S U

  -- The states that a pool can come to: its threads work, others add tasks that depend on futures
  -- which are set or those of tasks of the pool, and others call promises.
  pub data Reached : System V → Type 0 where
    starts :
        (threads : ℕ) (σ : Store V)
        → IsOrdered σ
        → AllMade σ
        → Reached (record {
          pool = record { tasks = []; shutdown_initiated = false };
          threads = threads;
          running = [];
          store = σ;
        })
    works : (S T : System V) → Reached S → Work S T → Reached T
    executes :
        (S : System V) (is_void : Bool) (func : Result Exception (Option V)) (ss : List ℕ)
        (h : Option ℕ) (q : Pool V) (τ : Store V)
        → Reached S
        → CanDependOn S ss
        → execute call is_void func (map some ss) S.pool S.store ≡ ok (h, q, τ)
        → Reached (record S { pool = q; store = τ })
    calls :
        (S : System V) (b : Action V) (τ : Store V)
        → Reached S
        → perform call b S.store ≡ ok τ
        → Reached (record S { store = τ })
