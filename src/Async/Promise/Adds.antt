-- ===== src/Async/Promise/Adds.antt =====
-- include/azul/async/Future.hpp: `(futures.Then(func), ...)` of `WhenAll`, one future at a time.
use libazul.Base.{
  All, ℕ, ◌+◌, ◌≤◌, ◌<◌, ◌≡◌, ◌≢◌, subst, true, List, [], ◌∷◌, map, Option, some, Result, ok, ◌==◌,
  ==_iff, Bool-cases, inl, inr, arith,
}
use libazul.Async.FutureState.{Exception, activate, Outcome, is_undefined}
use libazul.Async.Future.{Store, mem}
use libazul.Async.Future.Guard.{Guard}
use libazul.Async.Promise.{CallError, future_then, then_each}
use libazul.Async.Promise.Watched.{Watched}
use libazul.Async.Promise.Kept.{>>=-ok, AllMade, ThenLeaves, future_then-leaves}
use libazul.Async.Promise.Added.{then-Watched, then-AllMade, then-next, then-open}
use libazul.Async.Promise.Guarded.{then-Guard, then-Guard_new}

module _ {V : Type 0} (call : ℕ → Outcome V → Result Exception (Option V)) (a : ℕ) where
  -- The closures are added one after the other.
  pub data Adds : List ℕ → Store V → Store V → Type 0 where
    nothing : (σ : Store V) → Adds [] σ σ
    one_more :
        (s : ℕ) (rest : List ℕ) (σ ρ τ : Store V)
        → a < σ.next
        → s < a
        → ThenLeaves call a s σ ρ
        → Adds rest ρ τ
        → Adds (s ∷ rest) σ τ

  pub then_each-Adds :
      (ss : List ℕ) (σ τ : Store V)
      → a < σ.next
      → All (λ s. s < a) ss
      → then_each call (map some ss) (activate a) σ ≡ ok τ
      → Adds ss σ τ
  unfolding then_each
  then_each-Adds [] σ τ l b h = let same : σ ≡ τ = cc in subst (Adds [] σ) same (nothing σ)
  then_each-Adds (s ∷ ss) σ τ l (b, bs) h =
      go (λ ρ l' e. then_each-Adds ss ρ τ l' bs e)
        (>>=-ok (future_then call (some s) true (activate a) σ) tail τ h)
    where
      tail : Option ℕ × Store V → Result CallError (Store V)
      tail (q, ρ) = then_each call (map some ss) (activate a) ρ

      go :
          ((ρ : Store V)
            → a < ρ.next
            → then_each call (map some ss) (activate a) ρ ≡ ok τ
            → Adds ss ρ τ)
          → (x : Option ℕ × Store V) × (future_then call (some s) true (activate a) σ ≡ ok x)
            × (tail x ≡ ok τ)
          → Adds (s ∷ ss) σ τ
      go f ((q, ρ), e, e') =
          let leaves : ThenLeaves call a s σ ρ =
            future_then-leaves call a s q σ ρ (omega arith) e in
          let n : ρ.next ≡ σ.next + 1 = then-next call a s σ ρ leaves in
          one_more s ss σ ρ τ l b leaves (f ρ (omega (arith, n)) e')

  pub Adds-Watched :
      (all : List ℕ) {ss : List ℕ} {σ τ : Store V}
      → ((t : ℕ) → mem t all ≡ true → t < a)
      → ((t : ℕ) → mem t ss ≡ true → mem t all ≡ true)
      → Adds ss σ τ
      → Watched a all σ
      → Watched a all τ
  Adds-Watched all b i (nothing σ) w = w
  Adds-Watched all b i (one_more s rest σ ρ τ l m leaves more) w =
      Adds-Watched all b (λ t e. i t (ground arith)) more
        (then-Watched call a s all σ ρ leaves (i s (ground arith))
          (λ t e. let lt : t < a = b t e in omega arith) w)

  -- What is not set after was not set before.
  pub Adds-open :
      (t : ℕ) {ss : List ℕ} {σ τ : Store V}
      → t < a
      → Adds ss σ τ
      → is_undefined (τ.states t).state ≡ true
      → is_undefined (σ.states t).state ≡ true
  Adds-open t b (nothing σ) u = u
  Adds-open t b (one_more s rest σ ρ τ l m leaves more) u =
      then-open call a s t σ ρ leaves (omega arith) (Adds-open t b more u)

  Adds-Guard :
      (p z : ℕ) {ss : List ℕ} {σ τ : Store V}
      → z < a
      → p < σ.next
      → Adds ss σ τ
      → is_undefined (τ.states z).state ≡ true
      → Guard a p z σ
      → Guard a p z τ
  Adds-Guard p z b c (nothing σ) u g = g
  Adds-Guard p z b c (one_more s rest σ ρ τ l m leaves more) u g =
      let n : ρ.next ≡ σ.next + 1 = then-next call a s σ ρ leaves in
      Adds-Guard p z b (omega (arith, n)) more u
        (then-Guard call a s p z σ ρ leaves l c (Adds-open z b more u) g)

  -- There is a closure, with a state that is made, that guards `a` while `z` is not set.
  abbrev pub Guarded : (z : ℕ) → Store V → Type 0
  Guarded z τ = (p : ℕ) × (a ≢ p) × (p < τ.next) × Guard a p z τ

  Adds-next : {ss : List ℕ} {σ τ : Store V} → Adds ss σ τ → σ.next ≤ τ.next
  Adds-next (nothing σ) = omega arith
  Adds-next (one_more s rest σ ρ τ l b leaves more) =
      let n : ρ.next ≡ σ.next + 1 = then-next call a s σ ρ leaves in
      omega (arith, n, Adds-next more)

  -- A future that is not set afterwards has a closure that guards the one of `WhenAll`.
  pub Adds-Guard_new :
      (z : ℕ) {ss : List ℕ} {σ τ : Store V}
      → z < a
      → Adds ss σ τ
      → mem z ss ≡ true
      → is_undefined (τ.states z).state ≡ true
      → AllMade σ
      → Guard a a z σ
      → Guarded z τ
  Adds-Guard_new z b (nothing σ) i u m g = absurd (cc)
  Adds-Guard_new z b (one_more s rest σ ρ τ l c leaves more) i u m g =
      let n : ρ.next ≡ σ.next + 1 = then-next call a s σ ρ leaves in
      let u' : is_undefined (ρ.states z).state ≡ true = Adds-open z b more u in
      let later : mem z rest ≡ true → Guarded z τ = λ j.
        Adds-Guard_new z b more j u (then-AllMade call a s σ ρ leaves m)
          (then-Guard call a s a z σ ρ leaves l l u' g) in
      elim (Bool-cases (s == z)) [
        | inl e ↦
            let eq : s ≡ z = (==_iff s z).0 e in
            (
              σ.next,
              (λ q. omega (arith, l, q)),
              omega (arith, n, Adds-next more),
              Adds-Guard σ.next z b (omega (arith, n)) more u (
                  subst (λ x. Guard a σ.next x ρ) eq
                    (then-Guard_new call a s σ ρ leaves l (omega arith) (rw eq u') m (rw eq g))),
            )
        | inr e ↦ later (rw e at i)
      ]
