-- ===== src/Async/Promise/Guarded.antt =====
-- include/azul/async/Future.hpp: while a future is not set, its closure keeps the future of
-- `WhenAll` from being set, from the `Then` that adds it on.
use libazul.Base.{
  All, ℕ, ◌<◌, ◌≡◌, ◌≢◌, true, false, List, [], ◌∷◌, Option, Result, ◌==◌, inl, inr, arith,
}
use libazul.Async.FutureState.{Exception, Outcome, Continuation, is_undefined}
use libazul.Async.Future.{Store}
use libazul.Async.Future.Holders.{mem-cons_of_mem}
use libazul.Async.Future.Safe.{Clear}
use libazul.Async.Future.Guard.{Guard, Runs-Guard}
use libazul.Async.Promise.Kept.{AllMade, Kept, Prepared, ThenLeaves}
use libazul.Async.Promise.Added.{made_ne, Kept-All, Prepared-All, Kept-state, then-open}

-- No closure of another state has the promise `p`.
abbrev pub IsSole : (p z : ℕ) → ℕ → Continuation → Type 0
IsSole p z t k = (z == t) ≡ false → k.promise ≢ p

pub IsSole-intro :
    (p : ℕ) (e : Type 0) (ks : List Continuation)
    → (e → All (λ k. k.promise ≢ p) ks)
    → All (λ k. e → k.promise ≢ p) ks
IsSole-intro p e [] h = tt
IsSole-intro p e (k ∷ ks) h = (λ o. (h o).0, IsSole-intro p e ks (λ o. (h o).1))

pub IsSole-elim :
    (p : ℕ) (e : Type 0) (ks : List Continuation)
    → All (λ k. e → k.promise ≢ p) ks
    → e
    → All (λ k. k.promise ≢ p) ks
IsSole-elim p e [] h o = tt
IsSole-elim p e (k ∷ ks) (h, hs) o = (h o, IsSole-elim p e ks hs o)

module _ {V : Type 0} (a s : ℕ) where
  -- A closure that is kept leaves another's guard.
  Kept-Guard :
      (p z : ℕ) (σ τ : Store V)
      → Kept a s σ τ
      → a < σ.next
      → p < σ.next
      → Guard a p z σ
      → Guard a p z τ
  Kept-Guard p z σ τ k l m g = record {
    open_still = rw (Kept-state a s σ τ a k l) g.open_still;
    held = rw k.holds (mem-cons_of_mem p σ.next (σ.holders a) g.held);
    clear = λ t. Kept-All a s (λ u. Clear a) σ τ k (omega arith, tt) t (g.clear t);
    sole = λ t. IsSole-elim p _ (τ.states t).continuations (
        Kept-All a s (IsSole p z) σ τ k (λ o. omega arith) t
          (IsSole-intro p _ (σ.states t).continuations (g.sole t)));
  }

  -- A closure that is called leaves another's guard too.
  Prepared-Guard :
      (p z : ℕ) (σ τ : Store V) → Prepared a s σ τ → a < σ.next → Guard a p z σ → Guard a p z τ
  Prepared-Guard p z σ τ k l g = record {
    open_still = let n : (σ.next == a) ≡ false = ground arith in rw (k.others a n) g.open_still;
    held = rw k.holds (mem-cons_of_mem p σ.next (σ.holders a) g.held);
    clear = λ t. Prepared-All a s (λ u. Clear a) σ τ k t (g.clear t);
    sole = λ t. IsSole-elim p _ (τ.states t).continuations (
        Prepared-All a s (IsSole p z) σ τ k t
          (IsSole-intro p _ (σ.states t).continuations (g.sole t)));
  }

  -- The closure that is kept is a guard of its own.
  pub Kept-Guard_new :
      (σ τ : Store V) → Kept a s σ τ → a < σ.next → AllMade σ → Guard a a s σ → Guard a σ.next s τ
  Kept-Guard_new σ τ k l m g = record {
    open_still = rw (Kept-state a s σ τ a k l) g.open_still;
    held = rw k.holds (ground arith);
    clear = λ t. Kept-All a s (λ u. Clear a) σ τ k (omega arith, tt) t (g.clear t);
    sole = λ t. IsSole-elim σ.next _ (τ.states t).continuations (
        Kept-All a s (IsSole σ.next s) σ τ k (λ o. ground arith) t
          (IsSole-intro σ.next _ (σ.states t).continuations
            (λ o. made_ne σ.next (σ.states t).continuations (m.made t))));
  }

module _ {V : Type 0} (call : ℕ → Outcome V → Result Exception (Option V)) where
  -- One `Then` of `WhenAll`, whose source is set or not, leaves the guard of another source.
  pub then-Guard :
      (a s p z : ℕ) (σ τ : Store V)
      → ThenLeaves call a s σ τ
      → a < σ.next
      → p < σ.next
      → is_undefined (τ.states z).state ≡ true
      → Guard a p z σ
      → Guard a p z τ
  then-Guard a s p z σ τ (inl k) l m u g = Kept-Guard a s p z σ τ k l m g
  then-Guard a s p z σ τ (inr (ρ, k, runs)) l m u g =
      Runs-Guard a p z call runs u (Prepared-Guard a s p z σ ρ k l g)
        (((omega arith, tt), omega arith), (((omega arith, tt), omega arith), tt))

  -- The `Then` on `s` itself makes a guard, when `s` is not set.
  pub then-Guard_new :
      (a s : ℕ) (σ τ : Store V)
      → ThenLeaves call a s σ τ
      → a < σ.next
      → s < σ.next
      → is_undefined (τ.states s).state ≡ true
      → AllMade σ
      → Guard a a s σ
      → Guard a σ.next s τ
  then-Guard_new a s σ τ (inl k) l b u m g = Kept-Guard_new a s σ τ k l m g
  then-Guard_new a s σ τ (inr (ρ, k, runs)) l b u m g =
      let u' : _ = then-open call a s s σ τ (inr (ρ, k, runs)) b u in
      let d : _ = k.set in absurd (cc)
