-- ===== src/Async/StaticThreadPool/Tests.antt =====
-- Runs of a pool of threads.
use libazul.Base.{ℕ, ◌≡◌, refl, false, [], ◌∷◌, Option, none, some, Result, ok, throw}
use libazul.Async.FutureState.{Exception, user_exception, Outcome, returns, make_state}
use libazul.Async.Future.{Store}
use libazul.Async.Future.Termination.{IsOrdered}
use libazul.Async.Promise.Outcomes.{Finished}
use libazul.Async.Task.{Task, task_is_ready, run_task}
use libazul.Async.Task.Run.{run_task_lem}
use libazul.Async.StaticThreadPool.{Pool, next_task}
use libazul.Async.StaticThreadPool.NextTask.{IsNext, next_task-IsNext}

abbrev ignore : ℕ → Outcome ℕ → Result Exception (Option ℕ)
ignore f o = throw (user_exception f)

-- A state that nothing waits on, and no promise that is set.
abbrev fresh : Store ℕ
fresh = record { states = λ s. make_state false; holders = λ a. []; next = 3 }

-- A task that waits on a promise that is not set, and one that does not wait.
abbrev waiting : Task ℕ
waiting = record { dependency = some 0; promise = 1; func = ok (some 4) }

abbrev runnable : Task ℕ
runnable = record { dependency = none; promise = 2; func = ok (some 5) }

abbrev pool : Pool ℕ
pool = record { tasks = waiting ∷ runnable ∷ []; shutdown_initiated = false }

fresh-IsOrdered : IsOrdered fresh
unfolding make_state
fresh-IsOrdered = record { later = λ s. tt }

run_task_lem_example :
    (τ : Store ℕ) × (run_task ignore runnable fresh ≡ ok τ)
    × Finished ignore 2 (returns (some 5)) fresh τ
unfolding make_state
run_task_lem_example = run_task_lem ignore runnable fresh fresh-IsOrdered refl

next_task-IsNext_example : IsNext fresh pool.tasks (next_task fresh pool.tasks)
next_task-IsNext_example = next_task-IsNext fresh pool.tasks

-- The task that waits is passed over.
next_task_runs : next_task fresh pool.tasks ≡ some (runnable, waiting ∷ [])
unfolding next_task task_is_ready make_state
next_task_runs = refl
