-- ===== src/Async/Promise/Then.antt =====
-- include/azul/async/Future.hpp: `Future::Then`, on a future that is set and on one that is not.
use libazul.Base.{
  ℕ, suc, ◌+◌, ◌*◌, ◌<◌, ◌≡◌, refl, ap, ◌∙◌, Bool, true, false, [], ◌∷◌, ◌++◌, Option, some, Result,
  ok, throw, ◌==◌, update, arith,
}
use libazul.Async.FutureState.{
  Exception, Callable, user, activate, notify, Continuation, FutureState, Outcome, returns, throws,
  ready, exception, is_undefined, get, make_state, then_locked, set_value_locked,
  set_exception_locked, about_to_destroy_promise,
}
use libazul.Async.Future.{
  Store, put, Action, run, drop, step, exec, after_set_value, run_callable, drop_callable,
  set_result,
}
use libazul.Async.Promise.{
  fuel, or_out_of_fuel, perform, hold, make_promise, future_get, future_then, state_then,
}

module _ {V : Type 0} where
  -- What `Get` does on a future whose function ended so.
  abbrev pub outcome_of : Result Exception (Option V) → Outcome V
  outcome_of (ok v) = returns v
  outcome_of (throw e) = throws (some e)

module _ {V : Type 0} (call : ℕ → Outcome V → Result Exception (Option V)) where
  -- The state of a function's result, set by its end.
  abbrev settled_by : FutureState V → Result Exception (Option V) → FutureState V
  settled_by f (ok v) = record f { value = v; state = ready }
  settled_by f (throw e) = record f { exception_ptr = some e; state = exception }

  abbrev lambda : (f p s : ℕ) → Continuation
  lambda f p s = record { callable = user f; promise = p; source = s }

  run_user_at :
      (m f p s : ℕ) (σ : Store V) (r : Result Exception (Option V))
      → call f (get (σ.states s)) ≡ r
      → is_undefined (σ.states p).state ≡ true
      → (σ.states p).continuations ≡ []
      → exec call (suc (suc m)) (run (lambda f p s)) σ
        ≡ some (record σ { states = update σ.states p (settled_by (σ.states p) r) })
  unfolding exec step run_callable set_result after_set_value set_exception_locked set_value_locked
  run_user_at m f p s σ (ok v) e u c = rw (e, u, c) refl
  run_user_at m f p s σ (throw x) e u c = rw (e, c) refl

  drop_user_at :
      (m f p s : ℕ) (σ : Store V)
      → (σ.states p).continuations ≡ []
      → is_undefined (σ.states p).state ≡ false
      → exec call (suc (suc m)) (drop (lambda f p s)) σ
        ≡ some
            (record σ { states = update σ.states p (record (σ.states p) { continuations = [] }) })
  unfolding exec step drop_callable about_to_destroy_promise
  drop_user_at m f p s σ c d = rw (c, d) refl

  get-settled_by :
      (f : FutureState V) (r : Result Exception (Option V))
      → get (record (settled_by f r) { continuations = [] }) ≡ outcome_of r
  unfolding get
  get-settled_by f (ok v) = refl
  get-settled_by f (throw e) = refl

  settled_by-settled :
      (f : FutureState V) (r : Result Exception (Option V))
      → is_undefined (settled_by f r).state ≡ false
  settled_by-settled f (ok v) = refl
  settled_by-settled f (throw e) = refl

  settled_by-empty :
      (b : Bool) (r : Result Exception (Option V))
      → (settled_by (make_state b) r).continuations ≡ []
  unfolding make_state
  settled_by-empty b (ok v) = refl
  settled_by-empty b (throw e) = refl

  pub hold-states : (c : Callable) (p : ℕ) (σ : Store V) → (hold call c p σ).states ≡ σ.states
  hold-states (user f) p σ = refl
  hold-states (activate a) p σ = refl
  hold-states (notify t) p σ = refl

  pub hold-next : (c : Callable) (p : ℕ) (σ : Store V) → (hold call c p σ).next ≡ σ.next
  hold-next (user f) p σ = refl
  hold-next (activate a) p σ = refl
  hold-next (notify t) p σ = refl

  pub update-same : (f : ℕ → FutureState V) (p : ℕ) (v : FutureState V) → update f p v p ≡ v
  update-same f p v = ground arith

  perform_at :
      (a : Action V) (σ τ : Store V)
      → exec call (suc (suc (8 * σ.next + 6))) a σ ≡ some τ
      → perform call a σ ≡ ok τ
  perform_at a σ τ h = ap (or_out_of_fuel call) at_fuel
    where
      enough : fuel call σ ≡ suc (suc (8 * σ.next + 6))
      enough = omega arith

      at_fuel : exec call (fuel call σ) a σ ≡ some τ
      at_fuel = rw enough h

  -- On a future that is set, `Then` calls the function at once: the future that it returns gives
  -- what the function returned or threw, and the states made before are as they were.
  pub then_now :
      (s : ℕ) (b : Bool) (f : ℕ) (σ : Store V)
      → s < σ.next
      → is_undefined (σ.states s).state ≡ false
      → (τ : Store V) × (future_then call (some s) b (user f) σ ≡ ok (some σ.next, τ))
        × (future_get call (some σ.next) τ ≡ ok (outcome_of (call f (get (σ.states s)))))
        × ((t : ℕ) → t < σ.next → τ.states t ≡ σ.states t)
  unfolding future_then then_locked state_then make_promise make_state future_get
  then_now s b f σ l d = (
    σ₃,
    rw (future_then, state_then, still, ran, dropped) refl,
    rw (there, result) refl,
    λ t h. ground arith,
  )
    where
      r : Result Exception (Option V)
      r = call f (get (σ.states s))

      σ₁ : Store V
      σ₁ = (make_promise call b σ).1

      σ₂ : Store V
      σ₂ = record σ₁ { states = update σ₁.states σ.next (settled_by (σ₁.states σ.next) r) }

      σ₃ : Store V
      σ₃ = record σ₂ {
        states = update σ₂.states σ.next (record (σ₂.states σ.next) { continuations = [] });
      }

      same : σ₁.states s ≡ σ.states s
      same = ground arith

      fresh : σ₁.states σ.next ≡ make_state b
      fresh = ground arith

      set : σ₂.states σ.next ≡ settled_by (make_state b) r
      set = ground arith

      ran : perform call (run (lambda f σ.next s)) σ₁ ≡ ok σ₂
      ran =
          perform_at (run (lambda f σ.next s)) σ₁ σ₂
            (run_user_at _ f σ.next s σ₁ r (rw same refl) (rw fresh refl) (rw fresh refl))

      dropped : perform call (drop (lambda f σ.next s)) σ₂ ≡ ok σ₃
      dropped = perform_at (drop (lambda f σ.next s)) σ₂ σ₃ (
          drop_user_at _ f σ.next s σ₂ (rw set (settled_by-empty b r))
            (rw set (settled_by-settled (make_state b) r)))

      still : is_undefined (σ₁.states s).state ≡ false
      still = rw same d

      empty : FutureState V → FutureState V
      empty g = record g { continuations = [] }

      here : σ₃.states σ.next ≡ record (σ₂.states σ.next) { continuations = [] }
      here = update-same σ₂.states σ.next (record (σ₂.states σ.next) { continuations = [] })

      there : σ₃.states σ.next ≡ record (settled_by (make_state b) r) { continuations = [] }
      there = here ∙ ap empty set

      result : get (record (settled_by (make_state b) r) { continuations = [] }) ≡ outcome_of r
      result = get-settled_by (make_state b) r

  -- On a future that is not set, `Then` keeps the continuation behind those that wait already and
  -- changes nothing else; the future that it returns is not set.
  pub then_later :
      (s : ℕ) (b : Bool) (c : Callable) (σ : Store V)
      → s < σ.next
      → is_undefined (σ.states s).state ≡ true
      → (τ : Store V) × (future_then call (some s) b c σ ≡ ok (some σ.next, τ))
        × (τ.states s ≡ record (σ.states s) {
          continuations =
              (σ.states s).continuations
              ++ record { callable = c; promise = σ.next; source = s } ∷ [];
        })
        × (τ.states σ.next ≡ make_state b)
        × (τ.next ≡ σ.next + 1)
        × ((t : ℕ) → (s == t) ≡ false → (σ.next == t) ≡ false → τ.states t ≡ σ.states t)
  unfolding future_then state_then make_promise
  then_later s b c σ l u = (
    τ,
    rw (future_then, state_then, flag) refl,
    stored,
    other σ.next (ground arith) ∙ ground arith,
    hold-next c σ.next (make_promise call b σ).1,
    λ t n h. other t n ∙ ground arith,
  )
    where
      k : Continuation
      k = record { callable = c; promise = σ.next; source = s }

      σ₁ : Store V
      σ₁ = hold call c σ.next (make_promise call b σ).1

      held : σ₁.states ≡ (make_promise call b σ).1.states
      held = hold-states c σ.next (make_promise call b σ).1

      waiting : σ₁.states s ≡ σ.states s
      waiting = rw held (ground arith)

      locked :
          then_locked (σ₁.states s) k
          ≡ (record (σ.states s) { continuations = (σ.states s).continuations ++ k ∷ [] }, false)
      locked = rw waiting (unfold then_locked in rw u refl)

      τ : Store V
      τ = put σ₁ s (then_locked (σ₁.states s) k).0

      flag : (then_locked (σ₁.states s) k).1 ≡ false
      flag = ap (λ r. r.1) locked

      stored :
          τ.states s ≡ record (σ.states s) { continuations = (σ.states s).continuations ++ k ∷ [] }
      stored = update-same σ₁.states s (then_locked (σ₁.states s) k).0 ∙ ap (λ r. r.0) locked

      other : (t : ℕ) → (s == t) ≡ false → τ.states t ≡ (make_promise call b σ).1.states t
      other t n = rw (n, held) refl
