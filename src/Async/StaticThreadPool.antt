-- ===== src/Async/StaticThreadPool.antt =====
-- include/azul/async/StaticThreadPool.hpp: the tasks of a pool. What a thread does while it has
-- `_mutex` is one step. The threads, `_threads`, are counted in Threads.
pub mod NextTask
pub mod Shutdown
pub mod Waiting
pub mod Threads
pub mod Work
pub mod Rounds
pub mod Execute
pub mod Reached
pub mod Held
pub mod Dependencies
pub mod Drain
mod Tests
mod Samples
use libazul.Base.{
  ℕ, Bool, true, false, List, [], ◌∷◌, ◌++◌, map, Option, none, some, Result, ok, throw, ◌>>=◌,
  if◌then◌else◌,
}
use libazul.Async.FutureState.{Exception, Outcome}
use libazul.Async.Future.{Store}
use libazul.Async.Promise.{CallError, make_promise, promise_destroy, when_all}
use libazul.Async.Task.{Task, task_is_ready, run_task}

pub record Pool (V : Type 0) : Type 0 where
  pub tasks : List (Task V)
  pub shutdown_initiated : Bool

module _ {V : Type 0} where
  abbrev put_back : Task V → Option (Task V × List (Task V)) → Option (Task V × List (Task V))
  put_back t none = none
  put_back t (some (u, rest)) = some (u, t ∷ rest)

  -- `NextTask`: the task, and the tasks that are left.
  pub next_task : Store V → List (Task V) → Option (Task V × List (Task V))
  next_task σ [] = none
  next_task σ (t ∷ ts) =
      let rest = next_task σ ts in if task_is_ready σ t then some (t, ts) else put_back t rest

module _ {V : Type 0} (call : ℕ → Outcome V → Result Exception (Option V)) where
  -- `Execute`, for a function that gives `func`; with the handle of the future.
  pub execute :
      (is_void : Bool)
      → Result Exception (Option V)
      → List (Option ℕ)
      → Pool V
      → Store V
      → Result CallError (Option ℕ × Pool V × Store V)
  execute is_void func dependencies p σ = do
    (d, σ₁) ← when_all call dependencies σ
    let t : Task V = record { dependency = d; promise = σ₁.next; func = func }
    ok (some σ₁.next, record p { tasks = p.tasks ++ t ∷ [] }, (make_promise call is_void σ₁).1)

  -- What a thread does with its task: it runs it, and then the task goes, with its promise.
  pub finish_task : Task V → Store V → Result CallError (Store V)
  finish_task t σ = do ρ ← run_task call t σ; promise_destroy call (some t.promise) ρ

  pub after_next :
      Pool V → Store V → Option (Task V × List (Task V)) → Result CallError (Pool V × Store V)
  unfolding finish_task
  after_next p σ none = ok (p, σ)
  after_next p σ (some (t, rest)) = do τ ← finish_task t σ; ok (record p { tasks = rest }, τ)

  -- One round of `ThreadLoop`; the flag tells whether the loop goes on.
  pub thread_round : Pool V → Store V → Result CallError (Bool × Pool V × Store V)
  unfolding after_next
  thread_round p σ =
      if p.shutdown_initiated
      then ok (false, p, σ)
      else (do (q, τ) ← after_next p σ (next_task σ p.tasks); ok (true, q, τ))

  -- `_tasks.clear()`: each task goes, and with it its promise.
  pub destroy_tasks : List (Task V) → Store V → Result CallError (Store V)
  destroy_tasks [] σ = ok σ
  destroy_tasks (t ∷ ts) σ = do τ ← promise_destroy call (some t.promise) σ; destroy_tasks ts τ

  -- `ShutdownDestroyRemainingTasks`, when the threads have been joined.
  pub shutdown_destroy_remaining_tasks : Pool V → Store V → Result CallError (Pool V × Store V)
  unfolding destroy_tasks
  shutdown_destroy_remaining_tasks p σ = do
    τ ← destroy_tasks p.tasks σ
    ok (record p { tasks = [] }, τ)
