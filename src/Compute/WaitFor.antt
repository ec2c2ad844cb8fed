-- ===== src/Compute/WaitFor.antt =====
-- include/azul/compute/clcpp/OpenClComputeExecutor.hpp: the future that `Execute` returns, which
-- waits for the futures of its tasks.
mod Tests
use libazul.Base.{
  All, ℕ, ◌+◌, ◌<◌, ◌≡◌, refl, ap, ◌∙◌, Bool, true, List, [], ◌∷◌, map, Option, some, Result, ok,
  throw, ◌>>=◌, update,
}
use libazul.Async.FutureState.{Exception, activate, Outcome}
use libazul.Async.Future.{Store, Action, release}
use libazul.Async.Future.Termination.{IsOrdered}
use libazul.Async.Promise.{
  CallError, perform, make_promise, future_then, future_is_ready, then_each, when_all,
}
use libazul.Async.Promise.Kept.{AllMade}
use libazul.Async.Promise.Begun.{IsOfOthers, perform_all}
use libazul.Async.Promise.Ready.{all_ready, when_all-is_ready}

module _ {V : Type 0} (call : ℕ → Outcome V → Result Exception (Option V)) where
  -- `for (auto& f : futures) f.Then(func);`
  then_loop : List ℕ → ℕ → Store V → Result CallError (Store V)
  then_loop [] a σ = ok σ
  then_loop (f ∷ fs) a σ = do
    (_, σ₁) ← future_then call (some f) true (activate a) σ
    then_loop fs a σ₁

  -- `WaitFor`: the local variables hold the activator until the function returns.
  pub wait_for : List ℕ → Store V → Result CallError (Option ℕ × Store V)
  unfolding then_loop
  wait_for fs σ = do
    let a : ℕ = σ.next
    let σ₁ : Store V = (make_promise call true σ).1
    σ₂ ← then_loop fs a (record σ₁ { holders = update σ₁.holders a (a ∷ []) })
    σ₃ ← perform call (release a a) σ₂
    ok (some a, σ₃)

  next_with :
      (f g : Store V → Result CallError (Store V))
      → ((σ : Store V) → f σ ≡ g σ)
      → (r : Result CallError (Option ℕ × Store V)) → (r >>= λ x. f x.1) ≡ (r >>= λ x. g x.1)
  next_with f g h (ok x) = h x.1
  next_with f g h (throw e) = refl

  then_loop-then_each :
      (fs : List ℕ) (a : ℕ) (σ : Store V)
      → then_loop fs a σ ≡ then_each call (map some fs) (activate a) σ
  unfolding then_loop then_each
  then_loop-then_each [] a σ = refl
  then_loop-then_each (f ∷ fs) a σ =
      next_with (then_loop fs a) (then_each call (map some fs) (activate a))
        (then_loop-then_each fs a) (future_then call (some f) true (activate a) σ)

  wait_for-when_all : (fs : List ℕ) (σ : Store V) → wait_for fs σ ≡ when_all call (map some fs) σ
  unfolding wait_for when_all
  wait_for-when_all fs σ = rw (then_loop-then_each fs σ.next _) refl

  -- In a store whose states are in order and whose closures set states that are there: `WaitFor`
  -- returns a new future, and after any further calls on other promises it is ready if and only if
  -- the futures of all the tasks are.
  pub wait_for-is_ready :
      (fs : List ℕ) (calls : List (Action V)) (σ : Store V)
      → IsOrdered σ
      → AllMade σ
      → All (λ s. s < σ.next) fs
      → All (IsOfOthers σ.next) calls
      → (τ : Store V) × (ω : Store V) × (wait_for fs σ ≡ ok (some σ.next, τ))
        × (perform_all call calls τ ≡ ok ω)
        × (future_is_ready call (some σ.next) ω ≡ ok (all_ready fs ω))
  wait_for-is_ready fs calls σ o m l c =
      let (τ, ω, e, e', r) = when_all-is_ready call fs calls σ o m l c in
      (τ, ω, wait_for-when_all fs σ ∙ e, e', r)
