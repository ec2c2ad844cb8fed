-- ===== src/Async/Future/Safe.antt =====
-- include/azul/async/Future.hpp: actions that leave the future of `WhenAll` and one of its closures
-- alone.
use libazul.Base.{
  All, ℕ, ◌≡◌, ◌≢◌, true, false, List, [], ◌∷◌, map, ◌==◌, ==_iff, Bool-cases, inl, inr,
}
use libazul.Async.FutureState.{Callable, user, activate, notify, Continuation, is_undefined}
use libazul.Async.Future.{
  Store, Action, set_value, set_exception, run, drop, destroy_promise, release, drop_callable,
}
use libazul.Async.Future.Settle.{Settled, Settles}
use libazul.Async.Future.Effects.{Effect}

module _ (a : ℕ) where
  abbrev pub ClearOf : Callable → Type 0
  ClearOf (user f) = Unit
  ClearOf (activate b) = Unit
  ClearOf (notify t) = t ≢ a

  -- The closure does not set the future `a`.
  abbrev pub Clear : Continuation → Type 0
  Clear k = (k.promise ≢ a) × ClearOf k.callable

module _ {V : Type 0} (a p : ℕ) where
  -- Actions that neither set the future nor run that closure.
  abbrev pub Safe : Action V → Type 0
  Safe (set_value x v) = x ≢ a
  Safe (set_exception x e) = x ≢ a
  Safe (run k) = Clear a k × (k.promise ≢ p)
  Safe (drop k) = Clear a k × (k.promise ≢ p)
  Safe (destroy_promise x) = x ≢ a
  Safe (release b h) = h ≢ p

module _ (V : Type 0) (a p : ℕ) where
  pub runs-Safe :
      (ks : List Continuation)
      → All (Clear a) ks
      → All (λ k. k.promise ≢ p) ks
      → All (Safe {V = V} a p) (map run ks)
  runs-Safe [] c n = tt
  runs-Safe (k ∷ ks) (c, cs) (n, ns) = ((c, n), runs-Safe ks cs ns)

  pub drops-Safe :
      (ks : List Continuation)
      → All (Clear a) ks
      → All (λ k. k.promise ≢ p) ks
      → All (Safe {V = V} a p) (map drop ks)
  drops-Safe [] c n = tt
  drops-Safe (k ∷ ks) (c, cs) (n, ns) = ((c, n), drops-Safe ks cs ns)

  pub drop_callable-Safe :
      (c : Callable) (k : Continuation)
      → k.promise ≢ a
      → k.promise ≢ p
      → All (Safe {V = V} a p) (drop_callable c k)
  unfolding drop_callable
  drop_callable-Safe (user f) k n m = (n, tt)
  drop_callable-Safe (activate b) k n m = (n, (m, tt))
  drop_callable-Safe (notify t) k n m = (n, tt)

module _ {V : Type 0} (s : ℕ) where
  -- Actions on other states than `s`.
  abbrev pub Away : Action V → Type 0
  Away (set_value x v) = (s == x) ≡ false
  Away (set_exception x e) = (s == x) ≡ false
  Away (run k) = Unit
  Away (drop k) = Unit
  Away (destroy_promise x) = (s == x) ≡ false
  Away (release b h) = Unit

  -- What is not set at the end was not set before.
  pub open_before :
      (ρ τ : Store V)
      → Effect ρ τ
      → is_undefined (τ.states s).state ≡ true
      → is_undefined (ρ.states s).state ≡ true
  open_before ρ τ r u = let same : τ.states s ≡ ρ.states s = r.frees.same s u in rw (← same) u

  pub ne_settled :
      (x : ℕ) (τ : Store V)
      → Settled τ x
      → is_undefined (τ.states s).state ≡ true
      → (s == x) ≡ false
  ne_settled x τ d u = elim (Bool-cases (s == x)) [
    | inl m ↦ let eq : s ≡ x = (==_iff s x).0 m in let u' : _ = rw eq at u in absurd (cc)
    | inr n ↦ n
  ]

  -- What has settled its state has not been about one that is not set.
  pub Settles-Away :
      (b : Action V) (τ : Store V) → Settles b τ → is_undefined (τ.states s).state ≡ true → Away b
  Settles-Away (set_value x v) τ d u = ne_settled x τ d u
  Settles-Away (set_exception x e) τ d u = ne_settled x τ d u
  Settles-Away (run k) τ d u = tt
  Settles-Away (drop k) τ d u = tt
  Settles-Away (destroy_promise x) τ d u = ne_settled x τ d u
  Settles-Away (release b h) τ d u = tt
