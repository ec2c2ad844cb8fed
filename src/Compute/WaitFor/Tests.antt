-- ===== src/Compute/WaitFor/Tests.antt =====
-- A run of `WaitFor` of include/azul/compute/clcpp/OpenClComputeExecutor.hpp on two tasks.
use libazul.Base.{ℕ, ◌≡◌, true, [], ◌∷◌, Option, none, some, Result, ok, arith}
use libazul.Async.FutureState.{Exception, Outcome, make_state}
use libazul.Async.Future.{Store, set_value}
use libazul.Async.Future.Termination.{IsOrdered}
use libazul.Async.Promise.{future_is_ready}
use libazul.Async.Promise.Kept.{AllMade}
use libazul.Async.Promise.Begun.{perform_all}
use libazul.Async.Promise.Ready.{all_ready}
use libazul.Compute.WaitFor.{wait_for, wait_for-is_ready}

abbrev no_function : ℕ → Outcome ℕ → Result Exception (Option ℕ)
no_function f r = ok none

-- The futures of two tasks that have not run.
abbrev two_tasks : Store ℕ
unfolding make_state
two_tasks = record { states = λ t. make_state true; holders = λ a. []; next = 2 }

two_tasks-IsOrdered : IsOrdered two_tasks
unfolding make_state two_tasks
two_tasks-IsOrdered = record { later = λ t. tt }

two_tasks-AllMade : AllMade two_tasks
unfolding make_state two_tasks
two_tasks-AllMade = record { made = λ t. tt }

wait_for-is_ready_example :
    (τ : Store ℕ) × (ω : Store ℕ) × (wait_for no_function (0 ∷ 1 ∷ []) two_tasks ≡ ok (some 2, τ))
    × (perform_all no_function (set_value 1 none ∷ set_value 0 none ∷ []) τ ≡ ok ω)
    × (future_is_ready no_function (some 2) ω ≡ ok (all_ready (0 ∷ 1 ∷ []) ω))
unfolding two_tasks
wait_for-is_ready_example =
    wait_for-is_ready no_function (0 ∷ 1 ∷ []) (set_value 1 none ∷ set_value 0 none ∷ []) two_tasks
      two_tasks-IsOrdered two_tasks-AllMade (omega arith, (omega arith, tt))
      ((λ e. omega (arith, e)), ((λ e. omega (arith, e)), tt))
