-- ===== src/Async/Task.antt =====
-- include/azul/async/Task.hpp: a function whose result goes to a promise, once a future is set.
pub mod Run
pub mod Total
mod Members
use libazul.Base.{ℕ, Bool, true, Option, none, some, Result, ok, throw, not}
use libazul.Async.FutureState.{Exception, future_error, FutureErrorCode, Outcome, is_ready}
use libazul.Async.Future.{Store}
use libazul.Async.Promise.{
  CallError, logic_error, future_failure, out_of_fuel, promise_set_value, promise_set_exception,
}

-- `dependency` and `promise` are numbers of states; `func` is what calling the function gives.
pub record Task (V : Type 0) : Type 0 where
  pub dependency : Option ℕ
  pub promise : ℕ
  pub func : Result Exception (Option V)

module _ {V : Type 0} where
  -- `TaskBase::IsReady`
  abbrev pub ready_in : Store V → Option ℕ → Bool
  ready_in σ none = true
  ready_in σ (some d) = is_ready (σ.states d)

  unfoldable pub task_is_ready : Store V → Task V → Bool
  task_is_ready σ t = ready_in σ t.dependency

module _ {V : Type 0} (call : ℕ → Outcome V → Result Exception (Option V)) where
  -- The handler, on what `SetValue` did.
  unfoldable pub handle : ℕ → Store V → Result CallError (Store V) → Result CallError (Store V)
  handle s σ (ok τ) = ok τ
  handle s σ (throw logic_error) = throw logic_error
  handle s σ (throw (future_failure c)) = promise_set_exception call (some s) (future_error c) σ
  handle s σ (throw out_of_fuel) = throw out_of_fuel

  unfoldable pub run_in : ℕ → Result Exception (Option V) → Store V → Result CallError (Store V)
  unfolding handle
  run_in s (ok v) σ = handle s σ (promise_set_value call (some s) v σ)
  run_in s (throw e) σ = promise_set_exception call (some s) e σ

  -- `operator()`
  unfoldable pub run_task : Task V → Store V → Result CallError (Store V)
  unfolding run_in
  run_task t σ = run_in t.promise t.func σ
