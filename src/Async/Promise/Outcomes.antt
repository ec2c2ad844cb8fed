-- ===== src/Async/Promise/Outcomes.antt =====
-- include/azul/async/Future.hpp: what the calls on a promise do, on every branch.
use libazul.Base.{
  ℕ, suc, ◌*◌, ◌+◌, ◌<◌, ◌≡◌, refl, ap, ◌∙◌, true, false, map, Option, some, Result, ok, throw,
  update, if◌then◌else◌, arith, inl, inr,
}
use libazul.Async.FutureState.{
  future_already_set, broken_promise_error, Exception, future_error, FutureState, Outcome, returns,
  throws, ready, is_undefined, get, set_value_locked, set_exception_locked,
  about_to_destroy_promise, set_value_cases,
}
use libazul.Async.Future.{
  Store, set_value, set_exception, run, drop, destroy_promise, step, after_set_value, exec,
}
use libazul.Async.Future.Termination.{IsOrdered}
use libazul.Async.Promise.{
  fuel, or_out_of_fuel, future_failure, perform, promise_set_value, promise_set_exception,
  promise_destroy, future_get,
}
use libazul.Async.Promise.Complete.{Completed, ChainSettled, stepped-Completed}

module _ {V : Type 0} (call : ℕ → Outcome V → Result Exception (Option V)) where
  -- What a call on a promise has done when it returns: `Get` has the given outcome, the futures
  -- chained to the promise are settled, and earlier states are as they were.
  pub record Finished (s : ℕ) (r : Outcome V) (σ τ : Store V) : Type 0 where
    pub ordered : IsOrdered τ
    pub outcome : future_get call (some s) τ ≡ ok r
    pub chain : ChainSettled call (σ.states s).continuations τ
    pub below : (t : ℕ) → t < s → τ.states t ≡ σ.states t

  Completed-Finished :
      {s : ℕ} {f : FutureState V} {r : Outcome V} {σ τ : Store V}
      → get f ≡ r
      → Completed call s f σ τ
      → Finished s r σ τ
  unfolding future_get
  Completed-Finished g c = record {
    ordered = c.ordered;
    outcome = ap (λ x. ok (get x)) c.written ∙ ap ok g;
    chain = c.chain;
    below = c.below;
  }

  -- `SetValue` on a promise that is not set returns; then `Get` returns the value, every future
  -- chained to the promise is settled, and the states made before it are as they were.
  pub set_value_lem :
      (s : ℕ) (v : Option V) (σ : Store V)
      → IsOrdered σ
      → is_undefined (σ.states s).state ≡ true
      → (τ : Store V) × (promise_set_value call (some s) v σ ≡ ok τ) × Finished s (returns v) σ τ
  unfolding promise_set_value
  set_value_lem s v σ o u =
      go (stepped-Completed call (set_value s v) run s f σ (λ k. refl) (λ k τ h. h) refl asks o)
    where
      f : FutureState V
      f = record (σ.states s) { value = v; state = ready }

      locked : set_value_locked (σ.states s) v ≡ ok (f, true)
      locked = unfold set_value_locked in rw u refl

      view : get f ≡ returns v
      view = unfold get in refl

      asks :
          step call (set_value s v) σ
          ≡ (map run (σ.states s).continuations, record σ { states = update σ.states s f })
      asks = unfold step after_set_value in rw locked refl

      go :
          ((τ : Store V) × (perform call (set_value s v) σ ≡ ok τ) × Completed call s f σ τ)
          → (τ : Store V) × (promise_set_value call (some s) v σ ≡ ok τ)
            × Finished s (returns v) σ τ
      go (τ, e, c) = (τ, rw (promise_set_value, locked) e, Completed-Finished view c)

  -- An action that asks for nothing and changes nothing.
  pub set_value-returns :
      (s : ℕ) (v : Option V) (σ : Store V)
      → set_value_locked (σ.states s) v ≡ ok (σ.states s, false)
      → perform call (set_value s v) σ ≡ ok σ
  set_value-returns s v σ e = ap (or_out_of_fuel call) at_fuel
    where
      enough : fuel call σ ≡ suc (8 * σ.next + 7)
      enough = omega arith

      at_suc : exec call (suc (8 * σ.next + 7)) (set_value s v) σ ≡ some σ
      at_suc = unfold exec step after_set_value in rw e refl

      at_fuel : exec call (fuel call σ) (set_value s v) σ ≡ some σ
      at_fuel = rw enough at_suc

  -- A second `SetValue` on a promise with a value type throws; on a promise of `void` it returns and
  -- changes nothing.
  pub set_value_again :
      (s : ℕ) (v : Option V) (σ : Store V)
      → is_undefined (σ.states s).state ≡ false
      → promise_set_value call (some s) v σ
        ≡ (if (σ.states s).is_void then ok σ else throw (future_failure future_already_set))
  unfolding promise_set_value
  set_value_again s v σ d = elim (set_value_cases (σ.states s) v) [
    | inl (u, e) ↦ absurd (cc)
    | inr (inl (u, w, e)) ↦ rw (e, w) (set_value-returns s v σ e)
    | inr (inr (u, w, e)) ↦ rw (e, w) refl
  ]

  -- `SetException` returns in every state of the promise, also where a value is set: then `Get`
  -- throws the exception, and every future chained to the promise is settled.
  pub set_exception_lem :
      (s : ℕ) (e : Exception) (σ : Store V)
      → IsOrdered σ
      → (τ : Store V) × (promise_set_exception call (some s) e σ ≡ ok τ)
        × Finished s (throws (some e)) σ τ
  unfolding promise_set_exception
  set_exception_lem s e σ o = go (
      stepped-Completed call (set_exception s e) run s f σ (λ k. refl) (λ k τ h. h) refl
        (unfold step in refl) o)
    where
      f : FutureState V
      f = set_exception_locked (σ.states s) e

      view : get f ≡ throws (some e)
      view = unfold get set_exception_locked in refl

      go :
          ((τ : Store V) × (perform call (set_exception s e) σ ≡ ok τ) × Completed call s f σ τ)
          → (τ : Store V) × (promise_set_exception call (some s) e σ ≡ ok τ)
            × Finished s (throws (some e)) σ τ
      go (τ, p, c) = (τ, p, Completed-Finished view c)

  -- The destructor of a promise that was never set leaves a broken promise: `Get` throws
  -- `BrokenPromise`, and every future chained to the promise is settled. On a promise that was set,
  -- `Get` is as it was.
  pub destroy_lem :
      (s : ℕ) (σ : Store V)
      → IsOrdered σ
      → (τ : Store V) × (promise_destroy call (some s) σ ≡ ok τ)
        × Finished s
            (if is_undefined (σ.states s).state
              then throws (some (future_error broken_promise_error))
              else get (σ.states s))
            σ
            τ
  unfolding promise_destroy
  destroy_lem s σ o = go (
      stepped-Completed call (destroy_promise s) drop s f σ (λ k. refl) (λ k τ h. h) refl
        (unfold step about_to_destroy_promise in refl) o)
    where
      f : FutureState V
      f = (about_to_destroy_promise (σ.states s)).0

      view : get f ≡ (
          if is_undefined (σ.states s).state
          then throws (some (future_error broken_promise_error))
          else get (σ.states s))
      view = unfold get about_to_destroy_promise in ground arith

      go :
          ((τ : Store V) × (perform call (destroy_promise s) σ ≡ ok τ) × Completed call s f σ τ)
          → (τ : Store V) × (promise_destroy call (some s) σ ≡ ok τ)
            × Finished s
                (if is_undefined (σ.states s).state
                  then throws (some (future_error broken_promise_error))
                  else get (σ.states s))
                σ
                τ
      go (τ, p, c) = (τ, p, Completed-Finished view c)
