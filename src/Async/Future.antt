-- ===== src/Async/Future.antt =====
-- include/azul/async/Future.hpp: futures, promises, `Then`, `WhenAll` and `WhenAny` over a store of
-- shared states. Calls nest, so a call is an action that may ask for further actions; they run one
-- after the other, each to its end, before the next one of its caller.
pub mod Termination
pub mod Settle
pub mod Local
pub mod Runs
pub mod Holders
pub mod Frees
pub mod Steps
pub mod Effects
pub mod Safe
pub mod Guard
use libazul.Base.{
  ℕ, zero, suc, ◌+◌, ◌-◌, ◌*◌, ◌≡◌, Bool, true, false, List, [], ◌∷◌, ◌++◌, map, Option, none, some,
  if◌then◌else◌, Result, ok, throw, ◌==◌, update,
}
use libazul.Async.FutureState.{
  FutureErrorCode, future_already_set, Exception, future_error, Callable, user, activate, notify,
  Continuation, FutureState, Outcome, get, set_value_locked, set_exception_locked, then_locked,
  about_to_destroy_promise, make_state, is_ready,
}

-- The states by number; for each future of `WhenAll`, which closures hold its activator (a closure
-- is known by the number of its promise, the local variables of `WhenAll` by the future's own).
pub record Store (V : Type 0) : Type 0 where
  pub states : ℕ → FutureState V
  pub holders : ℕ → List ℕ
  pub next : ℕ

pub data Action (V : Type 0) : Type 0 where
  set_value : ℕ → Option V → Action V
  set_exception : ℕ → Exception → Action V
  run : Continuation → Action V
  drop : Continuation → Action V
  destroy_promise : ℕ → Action V
  release : ℕ → ℕ → Action V

abbrev pub mem : ℕ → List ℕ → Bool
mem a [] = false
mem a (x ∷ xs) = if x == a then true else mem a xs

abbrev pub without : ℕ → List ℕ → List ℕ
without a [] = []
without a (x ∷ xs) = if x == a then without a xs else x ∷ without a xs

abbrev pub is_empty : List ℕ → Bool
is_empty [] = true
is_empty (x ∷ xs) = false

module _ {V : Type 0} where
  abbrev pub put : Store V → ℕ → FutureState V → Store V
  put σ s f = record σ { states = update σ.states s f }

  -- `SetValue` inside the `try` of a continuation, whose handler calls `SetException`.
  unfoldable pub after_set_value :
      Store V → ℕ → Result FutureErrorCode (FutureState V × Bool) → List (Action V) × Store V
  after_set_value σ s (ok (f, true)) = (map run f.continuations, put σ s f)
  after_set_value σ s (ok (f, false)) = ([], σ)
  after_set_value σ s (throw e) = (set_exception s (future_error e) ∷ [], σ)

  -- How the body of the lambda in `Future::Then` ends for a function of the user's.
  unfoldable pub set_result : ℕ → Result Exception (Option V) → List (Action V)
  set_result p (ok v) = set_value p v ∷ []
  set_result p (throw e) = set_exception p e ∷ []

  -- The lambda's members go in reverse order: its promise, then its callable.
  unfoldable pub drop_callable : Callable → Continuation → List (Action V)
  drop_callable (user f) k = destroy_promise k.promise ∷ []
  drop_callable (activate a) k = destroy_promise k.promise ∷ release a k.promise ∷ []
  drop_callable (notify t) k = destroy_promise k.promise ∷ []

  -- The last hold on an activator runs the `Disposer` of `WhenAll`.
  unfoldable pub release_holder : Store V → (a h : ℕ) → List (Action V) × Store V
  release_holder σ a h =
      if mem h (σ.holders a)
      then (
        if is_empty (without h (σ.holders a)) then set_value a none ∷ [] else [],
        record σ { holders = update σ.holders a (without h (σ.holders a)) },
      )
      else ([], σ)

  abbrev pub run_all :
      (Action V → Store V → Option (Store V)) → List (Action V) → Store V → Option (Store V)
  run_all exec [] σ = some σ
  run_all exec (a ∷ rest) σ = elim (exec a σ) [ none ↦ none | some σ' ↦ run_all exec rest σ' ]

-- `call f outcome` is what the user's function `f` does on a future whose `Get` has that outcome.
module _ {V : Type 0} (call : ℕ → Outcome V → Result Exception (Option V)) where
  -- The body of the lambda in `Future::Then`.
  unfoldable pub run_callable : Callable → Continuation → Store V → List (Action V)
  run_callable (user f) k σ = set_result k.promise (call f (get (σ.states k.source)))
  run_callable (activate a) k σ = release a k.promise ∷ set_value k.promise none ∷ []
  run_callable (notify t) k σ = set_value t none ∷ set_value k.promise none ∷ []

  -- What an action does by itself, and the actions that it asks for.
  unfoldable pub step : Action V → Store V → List (Action V) × Store V
  step (set_value s v) σ = after_set_value σ s (set_value_locked (σ.states s) v)
  step (set_exception s e) σ =
      (map run (σ.states s).continuations, put σ s (set_exception_locked (σ.states s) e))
  step (run k) σ = (run_callable k.callable k σ, σ)
  step (drop k) σ = (drop_callable k.callable k, σ)
  step (destroy_promise s) σ =
      let (f, ks) = about_to_destroy_promise (σ.states s) in (map drop ks, put σ s f)
  step (release a h) σ = release_holder σ a h

  -- An action with all that it asks for; the fuel bounds how deep the calls nest.
  unfoldable pub exec : ℕ → Action V → Store V → Option (Store V)
  exec zero a σ = none
  exec (suc n) a σ = let (asked, σ') = step a σ in run_all (exec n) asked σ'
