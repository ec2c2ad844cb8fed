-- ===== src/Async/Promise.antt =====
-- include/azul/async/Future.hpp: the member functions of `Promise` and `Future`, `WhenAll` and
-- `WhenAny`. A handle is a number of a state, or `none` for an empty `_state`.
pub mod Complete
pub mod Outcomes
pub mod Then
pub mod Chain
pub mod All
pub mod Watched
pub mod Preserves
pub mod Kept
pub mod Added
pub mod Guarded
pub mod Adds
pub mod Begun
pub mod Ready
pub mod Join
pub mod Shields
pub mod Tests
use libazul.Base.{
  ℕ, zero, suc, ◌+◌, ◌*◌, ◌≡◌, Bool, true, false, List, [], ◌∷◌, Option, none, some, if◌then◌else◌,
  Result, ok, throw, ◌>>=◌, update, not,
}
use libazul.Async.FutureState.{
  FutureErrorCode, Exception, Callable, user, activate, notify, Continuation, FutureState, Outcome,
  make_state, get, is_undefined, set_value_locked, then_locked,
}
use libazul.Async.Future.{
  Store, Action, set_value, set_exception, run, drop, destroy_promise, release, exec, put,
}

-- What a member function throws; `out_of_fuel` is the model's own.
pub data CallError : Type 0 where
  logic_error : CallError
  future_failure : FutureErrorCode → CallError
  out_of_fuel : CallError

abbrev pub check : Option ℕ → Result CallError ℕ
check none = throw logic_error
check (some s) = ok s

module _ {V : Type 0} (call : ℕ → Outcome V → Result Exception (Option V)) where
  -- Calls nest no deeper than this in a store whose states are in order.
  abbrev pub fuel : Store V → ℕ
  fuel σ = 8 * σ.next + 8

  abbrev pub or_out_of_fuel : Option (Store V) → Result CallError (Store V)
  or_out_of_fuel none = throw out_of_fuel
  or_out_of_fuel (some σ) = ok σ

  abbrev pub perform : Action V → Store V → Result CallError (Store V)
  perform a σ = or_out_of_fuel (exec call (fuel σ) a σ)

  abbrev complete :
      ℕ
      → Option V
      → Store V
      → Result FutureErrorCode (FutureState V × Bool)
      → Result CallError (Store V)
  complete s v σ (ok r) = perform (set_value s v) σ
  complete s v σ (throw c) = throw (future_failure c)

  -- `Promise::SetValue`
  unfoldable pub promise_set_value : Option ℕ → Option V → Store V → Result CallError (Store V)
  promise_set_value h v σ = do s ← check h; complete s v σ (set_value_locked (σ.states s) v)

  -- `Promise::SetException`
  unfoldable pub promise_set_exception : Option ℕ → Exception → Store V → Result CallError (Store V)
  promise_set_exception h e σ = do s ← check h; perform (set_exception s e) σ

  -- `Promise::~Promise`
  unfoldable pub promise_destroy : Option ℕ → Store V → Result CallError (Store V)
  promise_destroy none σ = ok σ
  promise_destroy (some s) σ = perform (destroy_promise s) σ

  -- `Promise::Promise`, with the number of the new state.
  unfoldable pub make_promise : (is_void : Bool) → Store V → Option ℕ × Store V
  make_promise b σ =
      (some σ.next, record σ { states = update σ.states σ.next (make_state b); next = σ.next + 1 })

  -- `Future::Get`, `IsReady` and `Valid`.
  unfoldable pub future_get : Option ℕ → Store V → Result CallError (Outcome V)
  future_get h σ = do s ← check h; ok (get (σ.states s))

  unfoldable pub future_is_ready : Option ℕ → Store V → Result CallError Bool
  future_is_ready h σ = do s ← check h; ok (not (is_undefined (σ.states s).state))

  abbrev pub future_valid : Option ℕ → Bool
  future_valid none = false
  future_valid (some s) = true

  -- A closure of `WhenAll` holds the activator from the time that it is made.
  abbrev hold : Callable → ℕ → Store V → Store V
  hold (user f) p σ = σ
  hold (activate a) p σ = record σ { holders = update σ.holders a (p ∷ σ.holders a) }
  hold (notify t) p σ = σ

  -- `_state->Then(continuation)`; a closure that is not kept is called and destroyed.
  unfoldable pub state_then :
      ℕ → Continuation → Store V → FutureState V × Bool → Result CallError (Store V)
  state_then s k σ (f, false) = ok (put σ s f)
  state_then s k σ (f, true) = do σ₁ ← perform (run k) σ; perform (drop k) σ₁

  -- `Future::Then`, with the handle of the future that it returns.
  unfoldable pub future_then :
      Option ℕ → (is_void : Bool) → Callable → Store V → Result CallError (Option ℕ × Store V)
  unfolding state_then
  future_then h b c σ = do
    s ← check h
    let k : Continuation = record { callable = c; promise = σ.next; source = s }
    let σ₁ : Store V = hold c σ.next (make_promise b σ).1
    σ₂ ← state_then s k σ₁ (then_locked (σ₁.states s) k)
    ok (some σ.next, σ₂)

  -- `(futures.Then(func), ...)`
  unfoldable pub then_each : List (Option ℕ) → Callable → Store V → Result CallError (Store V)
  then_each [] c σ = ok σ
  then_each (h ∷ hs) c σ = do (_, σ₁) ← future_then h true c σ; then_each hs c σ₁

  -- `WhenAll`: the local variables hold the activator until the function returns.
  unfoldable pub when_all : List (Option ℕ) → Store V → Result CallError (Option ℕ × Store V)
  unfolding then_each
  when_all hs σ = do
    let a : ℕ = σ.next
    let σ₁ : Store V = (make_promise true σ).1
    σ₂ ← then_each hs (activate a) (record σ₁ { holders = update σ₁.holders a (a ∷ []) })
    σ₃ ← perform (release a a) σ₂
    ok (some a, σ₃)

  -- `WhenAny`
  unfoldable pub when_any : List (Option ℕ) → Store V → Result CallError (Option ℕ × Store V)
  unfolding then_each
  when_any hs σ = do
    let a : ℕ = σ.next
    σ₁ ← then_each hs (notify a) (make_promise true σ).1
    ok (some a, σ₁)
