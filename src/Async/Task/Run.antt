-- ===== src/Async/Task/Run.antt =====
-- include/azul/async/Task.hpp: what running a task does.
use libazul.Base.{ℕ, ◌≡◌, refl, true, Option, Result, ok, throw}
use libazul.Async.FutureState.{Exception, Outcome, is_undefined}
use libazul.Async.Future.{Store}
use libazul.Async.Future.Termination.{IsOrdered}
use libazul.Async.Promise.Outcomes.{Finished, set_value_lem, set_exception_lem}
use libazul.Async.Promise.Then.{outcome_of}
use libazul.Async.Task.{Task, run_task, run_in, handle}

module _ {V : Type 0} (call : ℕ → Outcome V → Result Exception (Option V)) where
  run_in_lem :
      (s : ℕ) (r : Result Exception (Option V)) (σ : Store V)
      → IsOrdered σ
      → is_undefined (σ.states s).state ≡ true
      → (τ : Store V) × (run_in call s r σ ≡ ok τ) × Finished call s (outcome_of r) σ τ
  unfolding run_in handle
  run_in_lem s (ok v) σ o u = let (τ, e, f) = set_value_lem call s v σ o u in (τ, rw e refl, f)
  run_in_lem s (throw x) σ o u = set_exception_lem call s x σ o

  -- Running a task whose promise is not set returns: then the future of the task gives what its
  -- function returned or threw, and the futures chained to it are settled.
  pub run_task_lem :
      (t : Task V) (σ : Store V)
      → IsOrdered σ
      → is_undefined (σ.states t.promise).state ≡ true
      → (τ : Store V) × (run_task call t σ ≡ ok τ) × Finished call t.promise (outcome_of t.func) σ τ
  unfolding run_task
  run_task_lem t σ o u = run_in_lem t.promise t.func σ o u
