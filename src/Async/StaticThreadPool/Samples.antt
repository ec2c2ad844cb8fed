-- ===== src/Async/StaticThreadPool/Samples.antt =====
-- Threads of a pool that run two tasks, of which one depends on the other.
use libazul.Base.{
  true, ℕ, ◌≡◌, ◌≤◌, ◌<◌, ◌⊎◌, refl, false, [], ◌∷◌, map, Option, some, Result, ok, throw, inr,
  arith,
}
use libazul.Async.FutureState.{
  set_exception_locked, about_to_destroy_promise, Exception, user_exception, Outcome, make_state,
  set_value_locked, then_locked,
}
use libazul.Async.Future.{
  run_callable, set_result, drop_callable, Store, exec, step, release_holder, after_set_value,
}
use libazul.Async.Future.Termination.{IsOrdered}
use libazul.Async.Promise.Kept.{AllMade}
use libazul.Async.Future.Settle.{Settled}
use libazul.Async.StaticThreadPool.Held.{Later, now, then_works}
use libazul.Async.StaticThreadPool.Dependencies.{taken_after}
use libazul.Async.Promise.{
  promise_destroy, promise_set_value, promise_set_exception, state_then, CallError, when_all,
  then_each, future_then, make_promise,
}
use libazul.Async.Task.{Task, task_is_ready, run_task, run_in, handle}
use libazul.Async.Task.Total.{Ran}
use libazul.Async.StaticThreadPool.{Pool, next_task, execute, finish_task}
use libazul.Async.StaticThreadPool.Threads.{
  System, CanDependOn, Reached, starts, executes, takes, finishes, leaves, works, Work,
  shutdown_notify_threads, Works, none_yet, one_more,
}
use libazul.Async.StaticThreadPool.Work.{finish_task-Ran}
use libazul.Async.StaticThreadPool.Reached.{Reached-Inv}
use libazul.Async.StaticThreadPool.Shutdown.{Destroyed, shutdown-settles}
use libazul.Async.StaticThreadPool.Drain.{DrainsTo, pool_drains}

abbrev ignore : ℕ → Outcome ℕ → Result Exception (Option ℕ)
ignore f o = throw (user_exception f)

abbrev fresh : Store ℕ
fresh = record { states = λ s. make_state false; holders = λ a. []; next = 3 }

fresh-IsOrdered : IsOrdered fresh
unfolding make_state
fresh-IsOrdered = record { later = λ s. tt }

fresh-AllMade : AllMade fresh
unfolding make_state
fresh-AllMade = record { made = λ t. tt }

-- A new pool, and the store after a call of `Execute`.
abbrev no_tasks : Pool ℕ
no_tasks = record { tasks = []; shutdown_initiated = false }

abbrev store_of : Result CallError (Option ℕ × Pool ℕ × Store ℕ) → Store ℕ
store_of (ok (h, q, τ)) = τ
store_of (throw e) = fresh

-- A task that depends on nothing, and one that depends on the first.
abbrev first : Task ℕ
first = record { dependency = some 3; promise = 4; func = ok (some 5) }

abbrev second : Task ℕ
second = record { dependency = some 5; promise = 7; func = throw (user_exception 1) }

abbrev one : Pool ℕ
one = record { tasks = first ∷ []; shutdown_initiated = false }

abbrev two : Pool ℕ
two = record { tasks = first ∷ second ∷ []; shutdown_initiated = false }

abbrev σ₁ : Store ℕ
σ₁ = store_of (execute ignore false (ok (some 5)) (map some []) no_tasks fresh)

abbrev σ₂ : Store ℕ
σ₂ = store_of (execute ignore false (throw (user_exception 1)) (map some (4 ∷ [])) one σ₁)

executed_first :
    execute ignore false (ok (some 5)) (map some []) no_tasks fresh ≡ ok (some 4, one, σ₁)
unfolding execute when_all then_each make_promise make_state exec step release_holder
    set_value_locked after_set_value
executed_first = refl

executed_second :
    execute ignore false (throw (user_exception 1)) (map some (4 ∷ [])) one σ₁
    ≡ ok (some 7, two, σ₂)
unfolding execute when_all then_each future_then make_promise make_state exec step release_holder
    set_value_locked after_set_value then_locked
executed_second = refl

abbrev started : System ℕ
started = record { pool = no_tasks; threads = 2; running = []; store = fresh }

abbrev with_one : System ℕ
with_one = record { pool = one; threads = 2; running = []; store = σ₁ }

abbrev with_two : System ℕ
with_two = record { pool = two; threads = 2; running = []; store = σ₂ }

with_one-CanDependOn : CanDependOn with_one (4 ∷ [])
unfolding execute when_all then_each make_promise make_state exec step release_holder
    set_value_locked after_set_value
with_one-CanDependOn s m =
    let e : s ≡ 4 = ground (arith, m) in (omega (arith, e), inr (inr (rw e refl)))

with_one-Reached : Reached ignore with_one
with_one-Reached =
    executes started false (ok (some 5)) [] (some 4) one σ₁
      (starts 2 fresh fresh-IsOrdered fresh-AllMade) (λ s m. absurd (cc)) executed_first

with_two-Reached : Reached ignore with_two
with_two-Reached =
    executes with_one false (throw (user_exception 1)) (4 ∷ []) (some 7) two σ₂ with_one-Reached
      with_one-CanDependOn executed_second

-- A thread takes the first task, and runs it.
abbrev with_first : System ℕ
with_first = record {
  pool = record { tasks = second ∷ []; shutdown_initiated = false };
  threads = 2;
  running = first ∷ [];
  store = σ₂;
}

second_left : next_task σ₂ (first ∷ second ∷ []) ≡ some (first, second ∷ [])
unfolding next_task task_is_ready execute when_all then_each future_then make_promise make_state
    exec step release_holder set_value_locked after_set_value then_locked
second_left = refl

first_ran : (τ : Store ℕ) × (finish_task ignore first σ₂ ≡ ok τ) × Ran 4 σ₂ τ
first_ran = finish_task-Ran ignore first σ₂ (Reached-Inv ignore with_two-Reached).ordered

abbrev first_done : System ℕ
first_done = record {
  pool = record { tasks = second ∷ []; shutdown_initiated = false };
  threads = 2;
  running = [];
  store = first_ran.0;
}

two_steps : Works ignore 2 with_two first_done
two_steps =
    one_more 1 with_two with_first first_done
      (takes with_two first (second ∷ []) refl (omega arith) second_left)
      (one_more 0 with_first first_done first_done
        (finishes with_first first [] [] first_ran.0 refl first_ran.1) (none_yet first_done))

pool_drains_example : DrainsTo ignore 2 with_two first_done
pool_drains_example =
    pool_drains ignore 2 with_two first_done with_two-Reached (omega arith) two_steps

-- A thread runs the first task when the destructor is called. It finishes that task, both threads
-- leave, and the second task goes.
with_first-Reached : Reached ignore with_first
with_first-Reached =
    works with_two with_first with_two-Reached
      (takes with_two first (second ∷ []) refl (omega arith) second_left)

abbrev told : System ℕ
told = record {
  pool = record { tasks = second ∷ []; shutdown_initiated = true };
  threads = 2;
  running = first ∷ [];
  store = σ₂;
}

abbrev told_done : System ℕ
told_done = record told { running = []; store = first_ran.0 }

abbrev told_left : System ℕ
told_left = record told_done { threads = 1 }

abbrev told_gone : System ℕ
told_gone = record told_done { threads = 0 }

three_steps : Works ignore 3 (shutdown_notify_threads with_first) told_gone
unfolding shutdown_notify_threads
three_steps =
    one_more 2 told told_done told_gone (finishes told first [] [] first_ran.0 refl first_ran.1) (
      one_more 1 told_done told_left told_gone (leaves told_done refl (omega arith)) (
        one_more 0 told_left told_gone told_gone (leaves told_left refl (omega arith))
          (none_yet told_gone)))

shutdown-settles_example :
    (3 ≤ 3)
    × (((0 < told_gone.threads) × ((U : System ℕ) × Work ignore told_gone U))
        ⊎ ((told_gone.threads ≡ 0) × Destroyed ignore with_first told_gone))
shutdown-settles_example =
    shutdown-settles ignore 3 with_first told_gone with_first-Reached three_steps

-- When the first task is done, a thread takes the second one, which depends on it.
abbrev done_or_fresh : Result CallError (Store ℕ) → Store ℕ
done_or_fresh (ok τ) = τ
done_or_fresh (throw e) = fresh

abbrev σ₃ : Store ℕ
σ₃ = done_or_fresh (finish_task ignore first σ₂)

first_finished : finish_task ignore first σ₂ ≡ ok σ₃
first_finished = rw first_ran.1 refl

abbrev second_ready : System ℕ
second_ready = record {
  pool = record { tasks = second ∷ []; shutdown_initiated = false };
  threads = 2;
  running = [];
  store = σ₃;
}

then_first : Later ignore σ₁.next with_two second_ready
then_first =
    then_works with_two with_first second_ready
      (then_works with_two with_two with_first (now with_two)
        (takes with_two first (second ∷ []) refl (omega arith) second_left))
      (finishes with_first first [] [] σ₃ refl first_finished)

second_taken : next_task σ₃ (second ∷ []) ≡ some (second, [])
unfolding next_task task_is_ready finish_task run_task run_in handle execute when_all then_each
    future_then state_then make_promise make_state exec step release_holder run_callable set_result
    drop_callable set_value_locked after_set_value then_locked set_exception_locked
    about_to_destroy_promise promise_destroy promise_set_value promise_set_exception
second_taken = refl

taken_after_example : Settled σ₃ 4
taken_after_example =
    taken_after ignore with_one second_ready false (throw (user_exception 1)) (4 ∷ []) 7 two σ₂
      second [] with_one-Reached with_one-CanDependOn executed_second then_first second_taken refl 4
      refl
