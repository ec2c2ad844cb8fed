-- ===== src/Async/Promise/Added.antt =====
-- include/azul/async/Future.hpp: what one `Then` of `WhenAll` does to who holds the activator.
use libazul.Base.{
  All, ℕ, ◌+◌, ◌<◌, ◌≡◌, ◌≢◌, refl, subst, ◌∙◌, ◌⊎◌, true, false, List, [], ◌∷◌, Option, Result,
  ◌==◌, ==_iff, Bool-cases, inl, inr, arith,
}
use libazul.Async.FutureState.{Exception, Continuation, Outcome, is_undefined, make_state}
use libazul.Async.Future.{Store, mem}
use libazul.Async.Future.Effects.{Effect, Runs-Over}
use libazul.Async.Future.Holders.{mem-cons}
use libazul.Async.Future.Safe.{open_before}
use libazul.Async.Promise.Watched.{
  Closure, Closure-more, Closure-last, Waits, Waits-Effect, Watched, held_before,
}
use libazul.Async.Promise.Kept.{
  IsMade, IsMade-later, All-snoc, AllMade, AllMade-Effect, closure, Kept, Prepared, ThenLeaves,
}

pub made_ne : (n : ℕ) (ks : List Continuation) → All (IsMade n) ks → All (λ k. k.promise ≢ n) ks
made_ne n [] h = tt
made_ne n (k ∷ ks) ((l, _), hs) = (λ e. omega (arith, l, e), made_ne n ks hs)

module _ {V : Type 0} (a s : ℕ) where
  -- What holds of all closures before holds of them after, if it holds of the one that is added.
  pub Kept-All :
      (P : ℕ → Continuation → Type 0) (σ τ : Store V)
      → Kept a s σ τ
      → P s (closure a σ.next s)
      → (t : ℕ) → All (P t) (σ.states t).continuations
      → All (P t) (τ.states t).continuations
  unfolding make_state
  Kept-All P σ τ k new t h = elim (Bool-cases (s == t)) [
    | inl m ↦
        let eq : s ≡ t = (==_iff s t).0 m in
        let h' : All (P s) (σ.states s).continuations = rw eq h in
        subst (λ u. All (P u) (τ.states u).continuations) eq
          (rw k.longer (All-snoc (P s) (σ.states s).continuations (closure a σ.next s) h' new))
    | inr n ↦ elim (Bool-cases (σ.next == t)) [
      | inl m ↦
          let eq : σ.next ≡ t = (==_iff σ.next t).0 m in
          subst (λ u. All (P t) (τ.states u).continuations) eq (rw k.fresh tt)
      | inr o ↦ rw (k.others t n o) h
    ]
  ]

  pub Prepared-All :
      (P : ℕ → Continuation → Type 0) (σ τ : Store V)
      → Prepared a s σ τ
      → (t : ℕ) → All (P t) (σ.states t).continuations
      → All (P t) (τ.states t).continuations
  unfolding make_state
  Prepared-All P σ τ k t h = elim (Bool-cases (σ.next == t)) [
    | inl m ↦
        let eq : σ.next ≡ t = (==_iff σ.next t).0 m in
        subst (λ u. All (P t) (τ.states u).continuations) eq (rw k.fresh tt)
    | inr o ↦ rw (k.others t o) h
  ]

  -- The state of a future that was there already does not change.
  pub Kept-state :
      (σ τ : Store V) (t : ℕ) → Kept a s σ τ → t < σ.next → (τ.states t).state ≡ (σ.states t).state
  Kept-state σ τ t k l = elim (Bool-cases (s == t)) [
    | inl m ↦
        let eq : s ≡ t = (==_iff s t).0 m in
        subst (λ u. (τ.states u).state ≡ (σ.states u).state) eq (rw k.longer refl)
    | inr n ↦ rw (k.others t n (ground arith)) refl
  ]

  Kept-Waits : (h t : ℕ) (σ τ : Store V) → Kept a s σ τ → t < σ.next → Waits a h t σ → Waits a h t τ
  Kept-Waits h t σ τ k l (u, c) = elim (Bool-cases (s == t)) [
    | inl m ↦
        let eq : s ≡ t = (==_iff s t).0 m in
        let c' : Closure a h (σ.states s).continuations = rw eq c in
        let u' : is_undefined (σ.states s).state ≡ true = rw eq u in
        subst (λ x. Waits a h x τ) eq
          (rw k.longer
            (u', Closure-more a h (σ.states s).continuations (closure a σ.next s ∷ []) c'))
    | inr n ↦ rw (k.others t n (ground arith)) (u, c)
  ]

  -- What is kept and what is called leaves who holds the activator known.
  Kept-Watched :
      (ss : List ℕ) (σ τ : Store V)
      → Kept a s σ τ
      → mem s ss ≡ true
      → ((t : ℕ) → mem t ss ≡ true → t < σ.next)
      → Watched a ss σ
      → Watched a ss τ
  Kept-Watched ss σ τ k i l w = record { waits = each; last = λ e. absurd (cc (k.holds)) }
    where
      last : Waits a σ.next s τ
      last = rw k.longer (k.waiting, Closure-last a σ.next s (σ.states s).continuations)

      each :
          (h : ℕ)
          → mem h (τ.holders a) ≡ true
          → (h ≡ a) ⊎ ((t : ℕ) × (mem t ss ≡ true) × Waits a h t τ)
      each h m = elim (Bool-cases (σ.next == h)) [
        | inl e ↦
            let eq : σ.next ≡ h = (==_iff σ.next h).0 e in
            inr (s, i, subst (λ x. Waits a x s τ) eq last)
        | inr n ↦
            let m' : mem h (σ.next ∷ σ.holders a) ≡ true = rw k.holds at m in
            elim (w.waits h (mem-cons h σ.next (σ.holders a) m' (ground arith))) [
              | inl e ↦ inl e
              | inr (t, j, c) ↦ inr (t, j, Kept-Waits h t σ τ k (l t j) c)
            ]
      ]

  Called-Watched :
      (ss : List ℕ) (σ ρ τ : Store V)
      → Prepared a s σ ρ
      → Effect ρ τ
      → mem σ.next (τ.holders a) ≡ false
      → ((t : ℕ) → mem t ss ≡ true → t < σ.next)
      → Watched a ss σ
      → Watched a ss τ
  Called-Watched ss σ ρ τ k r gone l w = record {
    waits = each;
    last = λ e. r.frees.emptied a (rw k.holds refl) e;
  }
    where
      each :
          (h : ℕ)
          → mem h (τ.holders a) ≡ true
          → (h ≡ a) ⊎ ((t : ℕ) × (mem t ss ≡ true) × Waits a h t τ)
      each h m = elim (Bool-cases (σ.next == h)) [
        | inl e ↦
            let eq : σ.next ≡ h = (==_iff σ.next h).0 e in
            let gone' : mem h (τ.holders a) ≡ false =
              subst (λ x. mem x (τ.holders a) ≡ false) eq gone in
            absurd (cc)
        | inr n ↦
            let m' : mem h (σ.next ∷ σ.holders a) ≡ true =
              rw k.holds at (held_before a h ρ τ r m) in
            elim (w.waits h (mem-cons h σ.next (σ.holders a) m' (ground arith))) [
              | inl e ↦ inl e
              | inr (t, j, c) ↦
                  let other : (σ.next == t) ≡ false = ground (arith, l t j) in
                  inr (t, j, Waits-Effect a h t ρ τ r m (rw (k.others t other) c))
            ]
      ]

module _ {V : Type 0} (call : ℕ → Outcome V → Result Exception (Option V)) where
  -- One `Then` of `WhenAll`, on a future that is set or not.
  pub then-Watched :
      (a s : ℕ) (ss : List ℕ) (σ τ : Store V)
      → ThenLeaves call a s σ τ
      → mem s ss ≡ true
      → ((t : ℕ) → mem t ss ≡ true → t < σ.next)
      → Watched a ss σ
      → Watched a ss τ
  then-Watched a s ss σ τ (inl k) i l w = Kept-Watched a s ss σ τ k i l w
  then-Watched a s ss σ τ (inr (ρ, k, runs)) i l w =
      let (r, ((_, _), ((_, gone), _))) = Runs-Over call runs in
      Called-Watched a s ss σ ρ τ k r gone l w

  pub then-AllMade : (a s : ℕ) (σ τ : Store V) → ThenLeaves call a s σ τ → AllMade σ → AllMade τ
  then-AllMade a s σ τ (inl k) m = record {
    made = λ t. rw k.grows (
        Kept-All a s (λ u. IsMade (σ.next + 1)) σ τ k (omega arith, tt) t
          (IsMade-later (σ.states t).continuations σ.next (σ.next + 1) (omega arith) (m.made t)));
  }
  then-AllMade a s σ τ (inr (ρ, k, runs)) m = AllMade-Effect ρ τ (Runs-Over call runs).0 record {
    made = λ t. rw k.grows (
        Prepared-All a s (λ u. IsMade (σ.next + 1)) σ ρ k t
          (IsMade-later (σ.states t).continuations σ.next (σ.next + 1) (omega arith) (m.made t)));
  }

  pub then-next : (a s : ℕ) (σ τ : Store V) → ThenLeaves call a s σ τ → τ.next ≡ σ.next + 1
  then-next a s σ τ (inl k) = k.grows
  then-next a s σ τ (inr (ρ, k, runs)) = (Runs-Over call runs).0.frees.same_next ∙ k.grows

  -- What is not set after was not set before.
  pub then-open :
      (a s t : ℕ) (σ τ : Store V)
      → ThenLeaves call a s σ τ
      → t < σ.next
      → is_undefined (τ.states t).state ≡ true
      → is_undefined (σ.states t).state ≡ true
  then-open a s t σ τ (inl k) l u = rw (← Kept-state a s σ τ t k l) u
  then-open a s t σ τ (inr (ρ, k, runs)) l u =
      let same : ρ.states t ≡ σ.states t = k.others t (ground arith) in
      rw (← same) (open_before t ρ τ (Runs-Over call runs).0 u)
