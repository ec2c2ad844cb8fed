-- ===== src/Async/Promise/Tests.antt =====
-- Runs of the calls on promises and futures.
use libazul.Base.{
  All, ℕ, zero, suc, ◌+◌, ◌≡◌, refl, false, [], ◌∷◌, Option, none, some, Result, ok, throw, ◌>>=◌,
  arith,
}
use libazul.Async.FutureState.{
  broken_promise_error, Exception, future_error, user_exception, user, Continuation, FutureState,
  Outcome, returns, throws, waits, ready, get, make_state, set_value_locked, set_exception_locked,
}
use libazul.Async.Future.{
  Store, set_value, exec, step, run_callable, set_result, after_set_value, run,
}
use libazul.Async.Future.Termination.{IsLater, IsOrdered}
use libazul.Async.Promise.{
  perform, promise_set_value, promise_set_exception, promise_destroy, future_get, future_is_ready,
  when_all,
}
use libazul.Async.Promise.Complete.{Performed, perform_lem}
use libazul.Async.Promise.Outcomes.{Finished, set_value_lem, set_exception_lem, destroy_lem}
use libazul.Async.Promise.Kept.{IsMade, AllMade}
use libazul.Async.Promise.Begun.{perform_all}
use libazul.Async.Promise.Ready.{all_ready, when_all-is_ready}

-- A function that adds one to the value, and passes any exception on.
abbrev add_one : ℕ → Outcome ℕ → Result Exception (Option ℕ)
add_one f (returns (some v)) = ok (some (v + 1))
add_one f (returns none) = ok none
add_one f (throws (some e)) = throw e
add_one f (throws none) = throw (user_exception 0)
add_one f waits = throw (user_exception 1)

abbrev waiting : Continuation
waiting = record { callable = user 0; promise = 1; source = 0 }

-- One promise with a future chained to it.
abbrev chained_states : ℕ → FutureState ℕ
unfolding make_state
chained_states zero = record (make_state false) { continuations = waiting ∷ [] }
chained_states (suc n) = make_state false

abbrev chained : Store ℕ
unfolding chained_states
chained = record { states = chained_states; holders = λ a. []; next = 2 }

-- The same where the promise is set.
abbrev set_states : ℕ → FutureState ℕ
unfolding make_state
set_states zero = record (make_state false) { state = ready; value = some 7 }
set_states (suc n) = make_state false

abbrev set : Store ℕ
unfolding set_states
set = record { states = set_states; holders = λ a. []; next = 1 }

chained-IsLater : (s : ℕ) → All (IsLater 2 s) (chained_states s).continuations
unfolding make_state chained_states
chained-IsLater zero = ((omega arith, omega arith), tt)
chained-IsLater (suc n) = tt

chained-IsMade : (s : ℕ) → All (IsMade 2) (chained_states s).continuations
unfolding make_state chained_states
chained-IsMade zero = ((omega arith, tt), tt)
chained-IsMade (suc n) = tt

chained-IsOrdered : IsOrdered chained
unfolding chained
chained-IsOrdered = record { later = chained-IsLater }

perform_lem_example :
    (τ : Store ℕ) × (perform add_one (run waiting) chained ≡ ok τ)
    × Performed add_one (run waiting) chained τ
perform_lem_example = perform_lem add_one (run waiting) chained chained-IsOrdered

set_value_lem_example :
    (τ : Store ℕ) × (promise_set_value add_one (some 0) (some 7) chained ≡ ok τ)
    × Finished add_one 0 (returns (some 7)) chained τ
unfolding chained make_state
set_value_lem_example = set_value_lem add_one 0 (some 7) chained chained-IsOrdered refl

set_exception_lem_example :
    (τ : Store ℕ) × (promise_set_exception add_one (some 0) (user_exception 5) chained ≡ ok τ)
    × Finished add_one 0 (throws (some (user_exception 5))) chained τ
set_exception_lem_example = set_exception_lem add_one 0 (user_exception 5) chained chained-IsOrdered

destroy_lem_example :
    (τ : Store ℕ) × (promise_destroy add_one (some 0) chained ≡ ok τ)
    × Finished add_one 0 (throws (some (future_error broken_promise_error))) chained τ
unfolding chained make_state
destroy_lem_example = destroy_lem add_one 0 chained chained-IsOrdered

chained-AllMade : AllMade chained
unfolding chained
chained-AllMade = record { made = chained-IsMade }

-- `WhenAll` on two futures that are not set, then `SetValue` on the first, which sets the second.
when_all-is_ready_example :
    (τ : Store ℕ) × (ω : Store ℕ) × (when_all add_one (some 0 ∷ some 1 ∷ []) chained
      ≡ ok (some 2, τ))
    × (perform_all add_one (set_value 0 (some 7) ∷ []) τ ≡ ok ω)
    × (future_is_ready add_one (some 2) ω ≡ ok (all_ready (0 ∷ 1 ∷ []) ω))
unfolding chained
when_all-is_ready_example =
    when_all-is_ready add_one (0 ∷ 1 ∷ []) (set_value 0 (some 7) ∷ []) chained chained-IsOrdered
      chained-AllMade (omega arith, (omega arith, tt)) ((λ e. omega (arith, e)), tt)

-- The value runs down the chain.
chained_runs :
    (promise_set_value add_one (some 0) (some 7) chained >>= future_get add_one (some 1))
    ≡ ok (returns (some 8))
unfolding promise_set_value future_get exec step run_callable set_result after_set_value
    set_value_locked chained make_state get
chained_runs = refl

-- `SetException` after `SetValue` puts the exception in place of the value, and has the
-- continuations called again.
value_overridden :
    (do
      σ ← promise_set_value add_one (some 0) (some 7) chained
      τ ← promise_set_exception add_one (some 0) (user_exception 5) σ
      future_get add_one (some 0) τ)
    ≡ ok (throws (some (user_exception 5)))
unfolding promise_set_value promise_set_exception future_get exec step run_callable set_result
    after_set_value set_value_locked set_exception_locked chained make_state get
value_overridden = refl
