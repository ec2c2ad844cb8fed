-- ===== src/Async/FutureState/Tests.antt =====
-- A thread that is woken twice before a value is there.
use libazul.Base.{ℕ, ◌≡◌, refl, false, [], ◌∷◌, some}
use libazul.Async.FutureState.{FutureState, ready, make_state, get}
use libazul.Async.FutureState.Waiting.{get_loop, wait}

abbrev unset : FutureState ℕ
unset = make_state false

abbrev with_value : FutureState ℕ
with_value = record (unset) { value = some 3; state = ready }

-- `Get` passes over both wake-ups, `Wait` returns after the first.
get_runs : get_loop unset (unset ∷ unset ∷ with_value ∷ []) ≡ get with_value
unfolding get_loop make_state get
get_runs = refl

wait_runs : wait unset (unset ∷ unset ∷ with_value ∷ []) ≡ some unset
unfolding wait make_state
wait_runs = refl
