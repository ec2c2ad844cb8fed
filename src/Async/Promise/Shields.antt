-- ===== src/Async/Promise/Shields.antt =====
-- include/azul/async/Future.hpp: a closure that keeps the future of a `WhenAll` from being set still
-- does so after another `WhenAll`.
use libazul.Base.{
  ◌+◌, map, some, ok, All, ℕ, ◌≤◌, ◌<◌, ◌≡◌, refl, true, false, List, Option, Bool, Result, ◌==◌,
  ==_iff, Bool-cases, inl, inr, arith,
}
use libazul.Async.FutureState.{activate, Exception, Outcome, is_undefined, make_state}
use libazul.Async.Future.{Store, release, mem}
use libazul.Async.Future.Safe.{Clear}
use libazul.Async.Future.Settle.{Settled}
use libazul.Async.Future.Runs.{Ends}
use libazul.Async.Future.Guard.{Guard, Ends-Guard, Runs-Guard}
use libazul.Async.Promise.{make_promise, then_each, when_all}
use libazul.Async.Promise.Kept.{Kept, Prepared, ThenLeaves, AllMade, AllMade-Effect, IsMade-later}
use libazul.Async.Promise.Added.{Kept-All, Prepared-All, Kept-state, then-AllMade}
use libazul.Async.Promise.Guarded.{IsSole, IsSole-intro, IsSole-elim}
use libazul.Async.Promise.Adds.{Adds, nothing, one_more, then_each-Adds, Guarded, Adds-Guard_new}
use libazul.Async.Promise.Begun.{All-mem, begun, begun-AllMade, begun-Guard}
use libazul.Async.Promise.Ready.{when_all_parts}
use libazul.Async.Future.Effects.{Ends-Over}
use libazul.Async.Future.Safe.{open_before}
use libazul.Async.Promise.Preserves.{Preserves, Adds-Preserves, Effect-Preserves}

module _ {V : Type 0} where
  -- Guards of futures below `n` by closures below `n` hold on, as long as the source is not set.
  abbrev pub Shields : ℕ → Store V → Store V → Type 0
  Shields n σ τ =
      (a p z : ℕ)
      → a < n
      → p < n
      → z < n
      → is_undefined (τ.states z).state ≡ true
      → Guard a p z σ
      → Guard a p z τ

  pub open_earlier :
      (n z : ℕ) (σ τ : Store V)
      → Preserves n σ τ
      → z < n
      → is_undefined (τ.states z).state ≡ true
      → is_undefined (σ.states z).state ≡ true
  open_earlier n z σ τ r l u = elim (Bool-cases (is_undefined (σ.states z).state)) [
    | inl o ↦ o
    | inr d ↦ let d' : Settled τ z = r.stays z l d in absurd (cc)
  ]

  pub Shields-trans :
      (n : ℕ) (σ ρ τ : Store V) → Shields n σ ρ → Preserves n ρ τ → Shields n ρ τ → Shields n σ τ
  Shields-trans n σ ρ τ f r g a p z l m k u h =
      g a p z l m k u (f a p z l m k (open_earlier n z ρ τ r k u) h)

  module _ (a' s : ℕ) where
    Kept-Shields : (σ τ : Store V) → a' < σ.next → Kept a' s σ τ → Shields a' σ τ
    Kept-Shields σ τ i k a p z l m n u g = record {
      open_still = rw (Kept-state a' s σ τ a k (omega arith)) g.open_still;
      held = let o : (a' == a) ≡ false = ground arith in rw (k.others_hold a o) g.held;
      clear = λ t. Kept-All a' s (λ x. Clear a) σ τ k (omega arith, tt) t (g.clear t);
      sole = λ t. IsSole-elim p _ (τ.states t).continuations (
          Kept-All a' s (IsSole p z) σ τ k (λ o. omega arith) t
            (IsSole-intro p _ (σ.states t).continuations (g.sole t)));
    }

    Prepared-Shields :
        (σ τ : Store V) (a p z : ℕ)
        → a' < σ.next
        → Prepared a' s σ τ
        → a < a'
        → Guard a p z σ
        → Guard a p z τ
    Prepared-Shields σ τ a p z i k l g = record {
      open_still = let o : (σ.next == a) ≡ false = ground arith in rw (k.others a o) g.open_still;
      held = let o : (a' == a) ≡ false = ground arith in rw (k.others_hold a o) g.held;
      clear = λ t. Prepared-All a' s (λ x. Clear a) σ τ k t (g.clear t);
      sole = λ t. IsSole-elim p _ (τ.states t).continuations (
          Prepared-All a' s (IsSole p z) σ τ k t
            (IsSole-intro p _ (σ.states t).continuations (g.sole t)));
    }

  -- A new state, and a holder for a future that is not below it, leave the guards.
  fresh-Guard :
      (b : Bool) (σ τ : Store V) (a p z : ℕ)
      → ((t : ℕ) → (σ.next == t) ≡ false → τ.states t ≡ σ.states t)
      → τ.states σ.next ≡ make_state b
      → τ.holders a ≡ σ.holders a
      → a < σ.next
      → Guard a p z σ
      → Guard a p z τ
  unfolding make_state
  fresh-Guard b σ τ a p z others fresh h l g = record {
    open_still = rw (others a (ground arith)) g.open_still;
    held = rw h g.held;
    clear = λ t. elim (Bool-cases (σ.next == t)) [
      | inl m ↦ rw (← (==_iff σ.next t).0 m, fresh) tt
      | inr o ↦ rw (others t o) (g.clear t)
    ];
    sole = λ t e. elim (Bool-cases (σ.next == t)) [
      | inl m ↦ rw (← (==_iff σ.next t).0 m, fresh) tt
      | inr o ↦ rw (others t o) (g.sole t e)
    ];
  }

module _ {V : Type 0} (call : ℕ → Outcome V → Result Exception (Option V)) where
  pub make_promise-Shields :
      (b : Bool) (n : ℕ) (σ : Store V) → n ≤ σ.next → Shields n σ (make_promise call b σ).1
  unfolding make_promise
  make_promise-Shields b n σ i a p z l m k u g =
      fresh-Guard b σ (make_promise call b σ).1 a p z (λ t o. rw o refl) (ground arith) refl
        (omega arith) g

  pub begun-Shields : (σ : Store V) → Shields σ.next σ (begun call σ)
  unfolding make_promise
  begun-Shields σ a p z l m k u g =
      fresh-Guard true σ (begun call σ) a p z (λ t o. rw o refl) (ground arith)
        (let o : (σ.next == a) ≡ false = ground arith in rw o refl) (omega arith) g

  then-Shields :
      (a' s : ℕ) (σ τ : Store V) → a' < σ.next → ThenLeaves call a' s σ τ → Shields a' σ τ
  then-Shields a' s σ τ i (inl k) a p z l m n u g = Kept-Shields a' s σ τ i k a p z l m n u g
  then-Shields a' s σ τ i (inr (ρ, k, runs)) a p z l m n u g =
      Runs-Guard a p z call runs u (Prepared-Shields a' s σ ρ a p z i k l g)
        (((omega arith, tt), omega arith), (((omega arith, tt), omega arith), tt))

  pub Adds-Shields : (a' : ℕ) {ss : List ℕ} {σ τ : Store V} → Adds call a' ss σ τ → Shields a' σ τ
  Adds-Shields a' (nothing σ) a p z l m n u g = g
  Adds-Shields a' (one_more s rest σ ρ τ i b leaves more) a p z l m n u g =
      Shields-trans a' σ ρ τ (then-Shields a' s σ ρ i leaves) (Adds-Preserves call a' more)
        (Adds-Shields a' more) a p z l m n u g

  Adds-AllMade : (a : ℕ) {ss : List ℕ} {σ τ : Store V} → Adds call a ss σ τ → AllMade σ → AllMade τ
  Adds-AllMade a (nothing σ) m = m
  Adds-AllMade a (one_more s rest σ ρ τ i b leaves more) m =
      Adds-AllMade a more (then-AllMade call a s σ ρ leaves m)

  release-Shields : (a' : ℕ) (ρ τ : Store V) → Ends call (release a' a') ρ τ → Shields a' ρ τ
  release-Shields a' ρ τ e a p z l m n u g = Ends-Guard a p z call e u g (λ q. omega (arith, m, q))

  -- What a `WhenAll` leaves of those that guard others, and who guards its own future.
  pub record Guards (ss : List ℕ) (σ τ : Store V) : Type 0 where
    pub shields : Shields σ.next σ τ
    pub guarded :
        (s : ℕ) → mem s ss ≡ true → is_undefined (τ.states s).state ≡ true → Guarded call σ.next s τ
    pub made : AllMade τ

  parts-Guards :
      (ss : List ℕ) (σ ρ τ : Store V)
      → All (λ s. s < σ.next) ss
      → AllMade σ
      → then_each call (map some ss) (activate σ.next) (begun call σ) ≡ ok ρ
      → Ends call (release σ.next σ.next) ρ τ
      → Guards ss σ τ
  unfolding make_promise
  parts-Guards ss σ ρ τ l m e last =
      let adds : Adds call σ.next ss (begun call σ) ρ =
        then_each-Adds call σ.next ss (begun call σ) ρ (omega arith) l e in
      let (r, _) = Ends-Over call last in
      let after : Preserves σ.next ρ τ = Effect-Preserves σ.next ρ τ r in
      record {
        shields =
            Shields-trans σ.next σ ρ τ
              (Shields-trans σ.next σ (begun call σ) ρ (begun-Shields σ)
                (Adds-Preserves call σ.next adds) (Adds-Shields σ.next adds))
              after (release-Shields σ.next ρ τ last);
        guarded = λ s i u.
            let (p, n, b, g) =
              Adds-Guard_new call σ.next s (All-mem ss l s i) adds i (open_before s ρ τ r u)
                (begun-AllMade call σ m) (begun-Guard call s σ m) in
            (p, n, rw r.frees.same_next b, Ends-Guard σ.next p s call last u g n);
        made = AllMade-Effect ρ τ r (Adds-AllMade σ.next adds (begun-AllMade call σ m));
      }

  pub when_all-Guards :
      (ss : List ℕ) (σ τ : Store V)
      → All (λ s. s < σ.next) ss
      → AllMade σ
      → when_all call (map some ss) σ ≡ ok (some σ.next, τ)
      → Guards ss σ τ
  when_all-Guards ss σ τ l m e =
      let (ρ, e', last) = when_all_parts call ss σ τ e in parts-Guards ss σ ρ τ l m e' last

  pub make_promise-AllMade :
      (b : Bool) (σ : Store V) → AllMade σ → AllMade (make_promise call b σ).1
  unfolding make_promise make_state
  make_promise-AllMade b σ m = record {
    made = λ t. elim (Bool-cases (σ.next == t)) [
      | inl e ↦ rw e tt
      | inr o ↦
          rw o
            (IsMade-later (σ.states t).continuations σ.next (σ.next + 1) (omega arith) (m.made t))
    ];
  }
