-- ===== src/Async/Future/Steps.antt =====
-- include/azul/async/Future.hpp: what one step does to the holds on the activator of `WhenAll`, when
-- all that it asks for has been done.
use libazul.Base.{
  All, ℕ, ◌≡◌, refl, ap, subst, ◌∙◌, ◌⊎◌, true, false, List, [], ◌∷◌, map, Option, Result, ◌==◌,
  ==_iff, update, Bool-cases, inl, inr, arith,
}
use libazul.Async.FutureState.{
  Exception, Callable, user, activate, notify, Continuation, FutureState, Outcome, is_undefined,
  set_value_locked, set_exception_locked, about_to_destroy_promise, set_value_cases,
}
use libazul.Async.Future.{
  Store, Action, set_value, set_exception, run, drop, destroy_promise, release, step,
  after_set_value, drop_callable, release_holder, run_callable, mem, without, is_empty, put,
}
use libazul.Async.Future.Settle.{Settled, Settles}
use libazul.Async.Future.Holders.{mem-without, mem-without_of_not_mem}
use libazul.Async.Future.Frees.{FreedBy, Freed, Released, Frees}

==-refl : (n : ℕ) → (n == n) ≡ true
==-refl n = ground arith

module _ {V : Type 0} where
  -- A state is set, and all its closures give up their holds by the end.
  put-Frees :
      (σ : Store V) (s : ℕ) (f : FutureState V) (τ : Store V)
      → is_undefined f.state ≡ false
      → (f.continuations ≡ (σ.states s).continuations) ⊎ (f.continuations ≡ [])
      → All (Freed τ) (σ.states s).continuations
      → Frees (put σ s f) τ
      → Frees σ τ
  put-Frees σ s f τ d c h r = record {
    shrinks = r.shrinks;
    same = λ t u. elim (Bool-cases (s == t)) [
      | inl m ↦ let e : τ.states t ≡ f = r.same t u ∙ there t m in absurd (cc)
      | inr n ↦ r.same t u ∙ elsewhere t n
    ];
    turned = λ t u e. elim (Bool-cases (s == t)) [
      | inl m ↦ let eq : s ≡ t = (==_iff s t).0 m in rw (← eq) h
      | inr n ↦
          subst (λ g. All (Freed τ) g.continuations) (elsewhere t n)
            (r.turned t (rw (elsewhere t n) u) e)
    ];
    emptied = r.emptied;
    fewer = λ t. elim (r.fewer t) [
      | inl e ↦ elim (Bool-cases (s == t)) [
        | inl m ↦
            let eq : s ≡ t = (==_iff s t).0 m in
            let here : (τ.states t).continuations ≡ f.continuations =
              e ∙ ap (λ g. g.continuations) (there t m) in
            elim c [
              | inl old ↦ inl (here ∙ old ∙ ap (λ u. (σ.states u).continuations) eq)
              | inr none_left ↦ inr (here ∙ none_left)
            ]
        | inr n ↦ inl (e ∙ ap (λ g. g.continuations) (elsewhere t n))
      ]
      | inr e ↦ inr e
    ];
    same_next = r.same_next;
  }
    where
      there : (t : ℕ) → (s == t) ≡ true → (put σ s f).states t ≡ f
      there t m = rw m refl

      elsewhere : (t : ℕ) → (s == t) ≡ false → (put σ s f).states t ≡ σ.states t
      elsewhere t n = rw n refl

  given_up-Frees :
      (σ : Store V) (b h : ℕ) (τ : Store V)
      → Frees (record σ { holders = update σ.holders b (without h (σ.holders b)) }) τ
      → (is_empty (without h (σ.holders b)) ≡ true → Settled τ b)
      → Frees σ τ × (mem h (τ.holders b) ≡ false)
  given_up-Frees σ b h τ r d = (
    record {
      shrinks = λ c g e. elim (Bool-cases (b == c)) [
        | inl m ↦
            let eq : b ≡ c = (==_iff b c).0 m in
            r.shrinks c g (rw (m, eq) (mem-without_of_not_mem g h (σ.holders c) e))
        | inr n ↦ r.shrinks c g (rw n e)
      ];
      same = r.same;
      turned = r.turned;
      emptied = λ c n e. elim (Bool-cases (b == c)) [
        | inl m ↦
            let eq : b ≡ c = (==_iff b c).0 m in
            elim (Bool-cases (is_empty (without h (σ.holders b)))) [
              | inl last ↦ rw (← eq) (d last)
              | inr others ↦ r.emptied c (rw m others) e
            ]
        | inr o ↦ r.emptied c (rw o n) e
      ];
      fewer = r.fewer;
      same_next = r.same_next;
    },
    r.shrinks b h (rw (==-refl b) (mem-without h (σ.holders b))),
  )

  -- The holder `h` of `b` gives up its hold.
  release_holder-Frees :
      (σ : Store V) (b h : ℕ) (τ : Store V)
      → Frees (release_holder σ b h).1 τ
      → All (λ a. Settles a τ) (release_holder σ b h).0
      → Frees σ τ × (mem h (τ.holders b) ≡ false)
  unfolding release_holder
  release_holder-Frees σ b h τ r s = elim (Bool-cases (mem h (σ.holders b))) [
    | inl m ↦ given_up-Frees σ b h τ (rw m at r) (λ e. (rw (m, e) at s).0)
    | inr n ↦ let r' : Frees σ τ = rw n at r in (r', r'.shrinks b h n)
  ]

  All-Released-run :
      (ks : List Continuation) (τ : Store V) → All (Released τ) (map run ks) → All (Freed τ) ks
  All-Released-run [] τ h = tt
  All-Released-run (k ∷ ks) τ (h, hs) = (h, All-Released-run ks τ hs)

  All-Released-drop :
      (ks : List Continuation) (τ : Store V) → All (Released τ) (map drop ks) → All (Freed τ) ks
  All-Released-drop [] τ h = tt
  All-Released-drop (k ∷ ks) τ (h, hs) = (h, All-Released-drop ks τ hs)

  set_value-Frees :
      (σ : Store V) (s : ℕ) (v : Option V) (τ : Store V)
      → Frees (after_set_value σ s (set_value_locked (σ.states s) v)).1 τ
      → All (Released τ) (after_set_value σ s (set_value_locked (σ.states s) v)).0
      → Frees σ τ × Unit {0}
  unfolding after_set_value
  set_value-Frees σ s v τ r h = elim (set_value_cases (σ.states s) v) [
    | inl (_, e) ↦ (
      put-Frees σ s _ τ refl (inl refl) (All-Released-run (σ.states s).continuations τ (rw e at h))
          (rw e at r),
      tt,
    )
    | inr (inl (_, _, e)) ↦ (rw e at r, tt)
    | inr (inr (_, _, e)) ↦ (rw e at r, tt)
  ]

  drop_callable-Freed :
      (c : Callable) (k : Continuation) (τ : Store V)
      → All (Released τ) (drop_callable c k)
      → FreedBy c k.promise τ
  unfolding drop_callable
  drop_callable-Freed (user f) k τ h = tt
  drop_callable-Freed (activate b) k τ h = h.1.0
  drop_callable-Freed (notify t) k τ h = tt

module _ {V : Type 0} (call : ℕ → Outcome V → Result Exception (Option V)) where
  run_callable-Freed :
      (c : Callable) (k : Continuation) (σ τ : Store V)
      → All (Released τ) (run_callable call c k σ)
      → FreedBy c k.promise τ
  unfolding run_callable
  run_callable-Freed (user f) k σ τ h = tt
  run_callable-Freed (activate b) k σ τ h = h.0
  run_callable-Freed (notify t) k σ τ h = tt

  destroy_promise-Frees :
      (s : ℕ) (σ τ : Store V)
      → Frees (put σ s (about_to_destroy_promise (σ.states s)).0) τ
      → All (Released τ) (map drop (about_to_destroy_promise (σ.states s)).1)
      → Frees σ τ
  unfolding about_to_destroy_promise
  destroy_promise-Frees s σ τ r h =
      put-Frees σ s _ τ (ground arith) (inr refl) (All-Released-drop (σ.states s).continuations τ h)
        r

  -- One step, when what it asks for has been done.
  pub step-Frees :
      (a : Action V) (σ τ : Store V)
      → Frees (step call a σ).1 τ
      → All (Released τ) (step call a σ).0
      → All (λ b. Settles b τ) (step call a σ).0
      → Frees σ τ × Released τ a
  unfolding step set_exception_locked drop_callable
  step-Frees (set_value s v) σ τ r h d = set_value-Frees σ s v τ r h
  step-Frees (set_exception s e) σ τ r h d =
      (put-Frees σ s _ τ refl (inl refl) (All-Released-run (σ.states s).continuations τ h) r, tt)
  step-Frees (run k) σ τ r h d = (r, run_callable-Freed k.callable k σ τ h)
  step-Frees (drop k) σ τ r h d = (r, drop_callable-Freed k.callable k τ h)
  step-Frees (destroy_promise s) σ τ r h d = (destroy_promise-Frees s σ τ r h, tt)
  step-Frees (release b h) σ τ r g d = release_holder-Frees σ b h τ r d
