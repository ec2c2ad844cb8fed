-- ===== src/Async/Future/Frees.antt =====
-- include/azul/async/Future.hpp: a continuation that is called or destroyed gives up its hold on
-- the activator of `WhenAll`, and the last hold given up sets the future.
use libazul.Base.{
  All, ℕ, ◌≡◌, refl, subst, ◌∙◌, ◌⊎◌, true, false, List, [], ◌∷◌, Bool-cases, inl, inr,
}
use libazul.Async.FutureState.{Callable, user, activate, notify, Continuation, is_undefined}
use libazul.Async.Future.{
  Store, Action, set_value, set_exception, run, drop, destroy_promise, release, mem, is_empty,
}
use libazul.Async.Future.Settle.{Settled}

module _ {V : Type 0} where
  -- The closure with this promise holds the activator no more.
  abbrev pub FreedBy : Callable → ℕ → Store V → Type 0
  FreedBy (user f) p τ = Unit
  FreedBy (activate b) p τ = mem p (τ.holders b) ≡ false
  FreedBy (notify t) p τ = Unit

  abbrev pub Freed : Store V → Continuation → Type 0
  Freed τ k = FreedBy k.callable k.promise τ

  -- What an action frees.
  abbrev pub Released : Store V → Action V → Type 0
  Released τ (set_value s v) = Unit
  Released τ (set_exception s e) = Unit
  Released τ (run k) = Freed τ k
  Released τ (drop k) = Freed τ k
  Released τ (destroy_promise s) = Unit
  Released τ (release b h) = mem h (τ.holders b) ≡ false

  -- What calls do to the holds: they are given up only; a state that is not set is as it was, and
  -- when it becomes set its closures give up theirs; the last one given up sets the future.
  pub record Frees (σ τ : Store V) : Type 0 where
    pub shrinks : (b h : ℕ) → mem h (σ.holders b) ≡ false → mem h (τ.holders b) ≡ false
    pub same : (t : ℕ) → is_undefined (τ.states t).state ≡ true → τ.states t ≡ σ.states t
    pub turned :
        (t : ℕ)
        → is_undefined (σ.states t).state ≡ true
        → Settled τ t
        → All (Freed τ) (σ.states t).continuations
    pub emptied :
        (b : ℕ) → is_empty (σ.holders b) ≡ false → is_empty (τ.holders b) ≡ true → Settled τ b
    pub fewer :
        (t : ℕ)
        → ((τ.states t).continuations ≡ (σ.states t).continuations)
          ⊎ ((τ.states t).continuations ≡ [])
    pub same_next : τ.next ≡ σ.next

  pub Frees-refl : (σ : Store V) → Frees σ σ
  Frees-refl σ = record {
    shrinks = λ b h e. e;
    same = λ t u. refl;
    turned = λ t u d. absurd (cc);
    emptied = λ b n e. absurd (cc);
    fewer = λ t. inl refl;
    same_next = refl;
  }

  FreedBy-shrinks :
      (c : Callable) (p : ℕ) (ρ τ : Store V) → Frees ρ τ → FreedBy c p ρ → FreedBy c p τ
  FreedBy-shrinks (user f) p ρ τ r h = tt
  FreedBy-shrinks (activate b) p ρ τ r h = r.shrinks b p h
  FreedBy-shrinks (notify t) p ρ τ r h = tt

  All-Freed-shrinks :
      (ks : List Continuation) (ρ τ : Store V) → Frees ρ τ → All (Freed ρ) ks → All (Freed τ) ks
  All-Freed-shrinks [] ρ τ r h = tt
  All-Freed-shrinks (k ∷ ks) ρ τ r (h, hs) =
      (FreedBy-shrinks k.callable k.promise ρ τ r h, All-Freed-shrinks ks ρ τ r hs)

  pub Released-shrinks : (a : Action V) (ρ τ : Store V) → Frees ρ τ → Released ρ a → Released τ a
  Released-shrinks (set_value s v) ρ τ r h = tt
  Released-shrinks (set_exception s e) ρ τ r h = tt
  Released-shrinks (run k) ρ τ r h = FreedBy-shrinks k.callable k.promise ρ τ r h
  Released-shrinks (drop k) ρ τ r h = FreedBy-shrinks k.callable k.promise ρ τ r h
  Released-shrinks (destroy_promise s) ρ τ r h = tt
  Released-shrinks (release b h) ρ τ r e = r.shrinks b h e

  pub Frees-Settled : (ρ τ : Store V) (t : ℕ) → Frees ρ τ → Settled ρ t → Settled τ t
  Frees-Settled ρ τ t r d = elim (Bool-cases (is_undefined (τ.states t).state)) [
    | inl u ↦ let e : τ.states t ≡ ρ.states t = r.same t u in absurd (cc)
    | inr d' ↦ d'
  ]

  pub Frees-trans : (σ ρ τ : Store V) → Frees σ ρ → Frees ρ τ → Frees σ τ
  Frees-trans σ ρ τ q r = record {
    shrinks = λ b h e. r.shrinks b h (q.shrinks b h e);
    same = λ t u. let e : τ.states t ≡ ρ.states t = r.same t u in e ∙ q.same t (rw (← e) u);
    turned = λ t u d. elim (Bool-cases (is_undefined (ρ.states t).state)) [
      | inl v ↦ subst (λ f. All (Freed τ) f.continuations) (q.same t v) (r.turned t v d)
      | inr e ↦ All-Freed-shrinks (σ.states t).continuations ρ τ r (q.turned t u e)
    ];
    emptied = λ b n e. elim (Bool-cases (is_empty (ρ.holders b))) [
      | inl m ↦ Frees-Settled ρ τ b r (q.emptied b n m)
      | inr m ↦ r.emptied b m e
    ];
    fewer = λ t. elim (r.fewer t) [
      | inl e ↦ elim (q.fewer t) [ inl e' ↦ inl (e ∙ e') | inr e' ↦ inr (e ∙ e') ]
      | inr e ↦ inr e
    ];
    same_next = r.same_next ∙ q.same_next;
  }
