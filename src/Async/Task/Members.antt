-- ===== src/Async/Task/Members.antt =====
-- include/azul/async/Future.hpp and Task.hpp: the members that wait, count or pass on a future, and
-- the operators on futures.
use libazul.Base.{ℕ, Bool, List, [], ◌∷◌, Option, some, Result, ok, ◌>>=◌}
use libazul.Async.FutureState.{Exception, Outcome, FutureState, number_of_continuations}
use libazul.Async.FutureState.Waiting.{CvStatus, wait, wait_for}
use libazul.Async.Future.{Store}
use libazul.Async.Promise.{CallError, check, when_all, when_any}
use libazul.Async.Task.{Task}

-- `Promise::GetFuture` and `Task::GetFuture`: the future has the state of the promise.
pub promise_get_future : Option ℕ → Result CallError (Option ℕ)
promise_get_future h = do s ← check h; ok (some s)

module _ {V : Type 0} where
  -- `Future::Wait` and `WaitFor`, by the states that the thread finds.
  pub future_wait :
      Option ℕ → Store V → List (FutureState V) → Result CallError (Option (FutureState V))
  future_wait h σ found = do s ← check h; ok (wait (σ.states s) found)

  pub future_wait_for : Option ℕ → Store V → CvStatus → Result CallError Bool
  future_wait_for h σ c = do s ← check h; ok (wait_for (σ.states s) c)

  -- `NumberOfContinuations` of a future or a promise that has a state; the source has no meaning
  -- where there is none.
  abbrev pub continuations_of : ℕ → Store V → ℕ
  continuations_of s σ = number_of_continuations (σ.states s)

  -- `Task::NumberOfContinuations`
  abbrev pub task_continuations : Task V → Store V → ℕ
  task_continuations t σ = continuations_of t.promise σ

module _ {V : Type 0} (call : ℕ → Outcome V → Result Exception (Option V)) where
  -- `&&` and `||`
  pub and_futures : Option ℕ → Option ℕ → Store V → Result CallError (Option ℕ × Store V)
  and_futures h k σ = when_all call (h ∷ k ∷ []) σ

  pub or_futures : Option ℕ → Option ℕ → Store V → Result CallError (Option ℕ × Store V)
  or_futures h k σ = when_any call (h ∷ k ∷ []) σ
