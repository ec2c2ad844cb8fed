-- ===== src/Async/FutureState.antt =====
-- include/azul/async/detail/FutureState.hpp: the state that a promise and its futures share, both
-- the template and its specialisation for `void`. Each member function runs under `_mutex` but for
-- the calls of the continuations, so it is one step here; what it calls outside the lock is a list
-- of actions (Async/Future). `V` is the type of the values.
pub mod Waiting
mod Tests
use libazul.Base.{
  ℕ, Bool, true, false, List, [], ◌∷◌, ◌++◌, Option, none, some, if◌then◌else◌, Result, ok, throw,
  ◌≡◌, refl, ◌⊎◌, inl, inr, Bool-cases,
}
use libazul.Base

pub data FutureErrorCode : Type 0 where
  broken_promise_error future_already_set : FutureErrorCode

-- What `std::current_exception` can hold: a `FutureError`, or an exception of the user's code.
pub data Exception : Type 0 where
  future_error : FutureErrorCode → Exception
  user_exception : ℕ → Exception

-- `enum class State`
pub data State : Type 0 where
  undefined ready exception broken_promise : State

-- What the lambda in `Future::Then` captures as `callable`: a function of the user's, the `func` of
-- `WhenAll` with its hold on the activator of a future, or the `func` of `WhenAny` for a future.
pub data Callable : Type 0 where
  user : ℕ → Callable
  activate : ℕ → Callable
  notify : ℕ → Callable

-- The lambda itself: `promise` and `copyOfThis` are numbers of states.
pub record Continuation : Type 0 where
  pub callable : Callable
  pub promise : ℕ
  pub source : ℕ

pub record FutureState (V : Type 0) : Type 0 where
  pub is_void : Bool
  pub state : State
  pub value : Option V
  pub exception_ptr : Option Exception
  pub continuations : List Continuation

-- What `Get` does on the current state: it returns, throws, or waits.
pub data Outcome (V : Type 0) : Type 0 where
  returns : Option V → Outcome V
  throws : Option Exception → Outcome V
  waits : Outcome V

abbrev pub is_undefined : State → Bool
is_undefined undefined = true
is_undefined ready = false
is_undefined exception = false
is_undefined broken_promise = false

module _ {V : Type 0} where
  -- A fresh state, of the template or of its specialisation.
  unfoldable pub make_state : (is_void : Bool) → FutureState V
  make_state b = record {
    is_void = b;
    state = undefined;
    value = none;
    exception_ptr = none;
    continuations = [];
  }

  abbrev pub is_ready : FutureState V → Bool
  is_ready f = Base.not (is_undefined f.state)

  get_in : State → FutureState V → Outcome V
  get_in exception f = throws f.exception_ptr
  get_in broken_promise f = throws (some (future_error broken_promise_error))
  get_in ready f = returns f.value
  get_in undefined f = waits

  unfoldable pub get : FutureState V → Outcome V
  unfolding get_in
  get f = get_in f.state f

  -- `SetValue` up to the end of its locked block. The template throws on a state that is set
  -- already, the specialisation returns. The flag tells whether the continuations are called.
  unfoldable pub set_value_locked :
      FutureState V → Option V → Result FutureErrorCode (FutureState V × Bool)
  set_value_locked f v =
      if is_undefined f.state
      then ok (record f { value = v; state = ready }, true)
      else if f.is_void
      then ok (f, false)
      else throw future_already_set

  -- `SetException` up to the end of its locked block.
  unfoldable pub set_exception_locked : FutureState V → Exception → FutureState V
  set_exception_locked f e = record f { exception_ptr = some e; state = exception }

  -- `Then`: the continuation is kept, or it is to be called at once.
  unfoldable pub then_locked : FutureState V → Continuation → FutureState V × Bool
  then_locked f k =
      if is_undefined f.state
      then (record f { continuations = f.continuations ++ k ∷ [] }, false)
      else (f, true)

  -- `AboutToDestroyPromise`; the continuations that it clears are the second component.
  unfoldable pub about_to_destroy_promise : FutureState V → FutureState V × List Continuation
  about_to_destroy_promise f = (
    record f {
      state = if is_undefined f.state then broken_promise else f.state;
      continuations = [];
    },
    f.continuations,
  )

  abbrev pub number_of_continuations : FutureState V → ℕ
  number_of_continuations f = Base.length f.continuations

  -- The three ways of `SetValue`.
  pub set_value_cases :
      (f : FutureState V) (v : Option V)
      → ((is_undefined f.state ≡ true)
          × (set_value_locked f v ≡ ok (record f { value = v; state = ready }, true)))
        ⊎ ((is_undefined f.state ≡ false)
            × (f.is_void ≡ true)
            × (set_value_locked f v ≡ ok (f, false)))
        ⊎ ((is_undefined f.state ≡ false)
            × (f.is_void ≡ false)
            × (set_value_locked f v ≡ throw future_already_set))
  unfolding set_value_locked
  set_value_cases f v = elim (Bool-cases (is_undefined f.state)) [
    | inl u ↦ inl (u, rw u refl)
    | inr d ↦ elim (Bool-cases f.is_void) [
      | inl w ↦ inr (inl (d, w, rw (d, w) refl))
      | inr w ↦ inr (inr (d, w, rw (d, w) refl))
    ]
  ]
