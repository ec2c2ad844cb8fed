-- ===== src/Async/Promise/All.antt =====
-- include/azul/async/Future.hpp: `Then` and `WhenAll` return, whether the futures are set or not.
use libazul.Base.{
  All, ℕ, ◌+◌, ◌≤◌, ◌<◌, ◌≡◌, refl, ◌∙◌, Bool, true, false, List, [], ◌∷◌, map, Option, some,
  Result, ok, ◌==◌, update, arith, Bool-cases, inl, inr,
}
use libazul.Async.FutureState.{
  Exception, Callable, user, activate, Continuation, Outcome, is_undefined, make_state, then_locked,
}
use libazul.Async.Future.{Store, run, drop, release}
use libazul.Async.Future.Termination.{IsOrdered, IsLater, low}
use libazul.Async.Promise.{
  perform, hold, make_promise, future_then, state_then, then_each, when_all,
}
use libazul.Async.Promise.Complete.{Performed, perform_lem}
use libazul.Async.Promise.Then.{hold-states, hold-next}
use libazul.Async.Promise.Chain.{IsLater-mono, then_later-IsOrdered}

module _ {V : Type 0} (call : ℕ → Outcome V → Result Exception (Option V)) where
  pub prepared-IsOrdered :
      (b : Bool) (c : Callable) (σ : Store V)
      → IsOrdered σ
      → IsOrdered (hold call c σ.next (make_promise call b σ).1)
  unfolding make_promise
  prepared-IsOrdered b c σ o = record { later = λ t. later_at t }
    where
      later_at :
          (t : ℕ)
          → All
              (IsLater (hold call c σ.next (make_promise call b σ).1).next t)
              ((hold call c σ.next (make_promise call b σ).1).states t).continuations
      later_at t =
          rw
            (
              hold-states call c σ.next (make_promise call b σ).1,
              hold-next call c σ.next (make_promise call b σ).1,
            )
            (elim (Bool-cases (σ.next == t)) [
              | inl e ↦ rw e (unfold make_state in tt)
              | inr d ↦ rw d (IsLater-mono σ.next t (σ.states t).continuations (o.later t))
            ])

  -- What `Then` returns, on a future that is set or not.
  abbrev Chained : ℕ → Bool → Callable → Store V → Type 0
  Chained s b c σ =
      (τ : Store V) × (future_then call (some s) b c σ ≡ ok (some σ.next, τ))
      × IsOrdered τ
      × (τ.next ≡ σ.next + 1)

  then_now-IsOrdered :
      (s : ℕ) (b : Bool) (c : Callable) (σ : Store V)
      → IsOrdered σ
      → s < σ.next
      → is_undefined (σ.states s).state ≡ false
      → Chained s b c σ
  unfolding future_then then_locked state_then make_promise
  then_now-IsOrdered s b c σ o l d = first (perform_lem call (run k) σ₁ o₁)
    where
      k : Continuation
      k = record { callable = c; promise = σ.next; source = s }

      σ₁ : Store V
      σ₁ = hold call c σ.next (make_promise call b σ).1

      o₁ : IsOrdered σ₁
      o₁ = prepared-IsOrdered b c σ o

      same : σ₁.states s ≡ σ.states s
      same = rw (hold-states call c σ.next (make_promise call b σ).1) (ground arith)

      still : is_undefined (σ₁.states s).state ≡ false
      still = rw same d

      second :
          (σ₂ : Store V)
          → perform call (run k) σ₁ ≡ ok σ₂
          → Performed call (run k) σ₁ σ₂
          → ((σ₃ : Store V) × (perform call (drop k) σ₂ ≡ ok σ₃) × Performed call (drop k) σ₂ σ₃)
          → Chained s b c σ
      second σ₂ e p (σ₃, e', p') = (
        σ₃,
        rw (future_then, state_then, still, e, e') refl,
        p'.ordered,
        p'.same_next ∙ p.same_next ∙ hold-next call c σ.next (make_promise call b σ).1,
      )

      first :
          ((σ₂ : Store V) × (perform call (run k) σ₁ ≡ ok σ₂) × Performed call (run k) σ₁ σ₂)
          → Chained s b c σ
      first (σ₂, e, p) = second σ₂ e p (perform_lem call (drop k) σ₂ p.ordered)

  then-IsOrdered :
      (s : ℕ) (b : Bool) (c : Callable) (σ : Store V)
      → IsOrdered σ
      → s < low c σ.next
      → low c σ.next ≤ σ.next
      → Chained s b c σ
  then-IsOrdered s b c σ o l m = elim (Bool-cases (is_undefined (σ.states s).state)) [
    | inl u ↦ let (τ, e, o', n, _) = then_later-IsOrdered call s b c σ o l m u in (τ, e, o', n)
    | inr d ↦ then_now-IsOrdered s b c σ o (omega arith) d
  ]

  then_each_lem :
      (a : ℕ) (ss : List ℕ) (σ : Store V)
      → IsOrdered σ
      → a < σ.next
      → All (λ s. s < a) ss
      → (τ : Store V) × (then_each call (map some ss) (activate a) σ ≡ ok τ) × IsOrdered τ
  unfolding then_each
  then_each_lem a [] σ o h l = (σ, refl, o)
  then_each_lem a (s ∷ ss) σ o h (l, ls) =
      let (σ₁, e, o₁, n) = then-IsOrdered s true (activate a) σ o (omega arith) (omega arith) in
      let (τ, e', o') = then_each_lem a ss σ₁ o₁ (omega (arith, n)) ls in (τ, rw e e', o')

  -- `WhenAll` on futures of a store whose states are in order returns a new future, and the store
  -- stays in order: whether the futures are set, and whatever is chained to them.
  pub when_all-IsOrdered :
      (ss : List ℕ) (σ : Store V)
      → IsOrdered σ
      → All (λ s. s < σ.next) ss
      → (τ : Store V) × (when_all call (map some ss) σ ≡ ok (some σ.next, τ)) × IsOrdered τ
  unfolding when_all make_promise
  when_all-IsOrdered ss σ o l = first (then_each_lem σ.next ss σ₁ o₁ (omega arith) l)
    where
      σ₀ : Store V
      σ₀ = (make_promise call true σ).1

      σ₁ : Store V
      σ₁ = record σ₀ { holders = update σ₀.holders σ.next (σ.next ∷ []) }

      o₁ : IsOrdered σ₁
      o₁ = record { later = (prepared-IsOrdered true (user 0) σ o).later }

      second :
          (σ₂ : Store V)
          → then_each call (map some ss) (activate σ.next) σ₁ ≡ ok σ₂
          → ((σ₃ : Store V) × (perform call (release σ.next σ.next) σ₂ ≡ ok σ₃)
              × Performed call (release σ.next σ.next) σ₂ σ₃)
          → (τ : Store V) × (when_all call (map some ss) σ ≡ ok (some σ.next, τ)) × IsOrdered τ
      second σ₂ e (σ₃, e', p) = (σ₃, rw (when_all, e, e') refl, p.ordered)

      first :
          ((σ₂ : Store V) × (then_each call (map some ss) (activate σ.next) σ₁ ≡ ok σ₂)
            × IsOrdered σ₂)
          → (τ : Store V) × (when_all call (map some ss) σ ≡ ok (some σ.next, τ)) × IsOrdered τ
      first (σ₂, e, o₂) = second σ₂ e (perform_lem call (release σ.next σ.next) σ₂ o₂)
