-- ===== src/Ipc/LockOrder/Tests.antt =====
-- Two threads, and a third that wakes the first.
use libazul.Base.{true, ℕ, ◌≡◌, refl, List, [], ◌∷◌, none, some, update}
use libazul.Ipc.LockOrder.{Operation, wake, Threads, step, run}
use libazul.Ipc.LockOrder.Deadlock.{start, schedule, met, deadlock}

abbrev third : ℕ → List Operation
third v = wake 0 ∷ []

abbrev woken_again : Threads
woken_again = record (met third [] []) {
  woken = update (met third [] []).woken 0 true;
  rest = update (met third [] []).rest 2 [];
}

deadlock_example :
    (run schedule (start third [] []) ≡ some (met third [] []))
    × (step 0 woken_again ≡ none)
    × (step 1 woken_again ≡ none)
deadlock_example = deadlock third [] [] (2 ∷ []) woken_again refl
