-- ===== src/Async/Future/Settle.antt =====
-- include/azul/async/Future.hpp: who completes, fails or abandons a promise also settles every
-- future that was chained to it by `Then`; and what is settled stays settled.
use libazul.Base.{
  All, ℕ, zero, suc, ◌≡◌, refl, sym, subst, ◌∙◌, true, false, List, [], ◌∷◌, Option, none, some,
  Result, ok, throw, ◌==◌, update, Bool-cases, Option-cases, inl, inr, arith,
}
use libazul.Async.FutureState.{
  Exception, Callable, user, activate, notify, Continuation, FutureState, Outcome, is_undefined,
  set_value_locked, set_exception_locked, about_to_destroy_promise, set_value_cases,
}
use libazul.Async.Future.{
  Store, Action, set_value, set_exception, run, drop, destroy_promise, release, step, exec, run_all,
  after_set_value, drop_callable, release_holder, set_result, run_callable, mem,
}

module _ {V : Type 0} where
  -- The state has a value, an exception, or a broken promise.
  abbrev pub Settled : Store V → ℕ → Type 0
  Settled σ s = is_undefined (σ.states s).state ≡ false

  -- What an action settles.
  abbrev pub Settles : Action V → Store V → Type 0
  Settles (set_value s v) τ = Settled τ s
  Settles (set_exception s e) τ = Settled τ s
  Settles (run k) τ = Settled τ k.promise
  Settles (drop k) τ = Settled τ k.promise
  Settles (destroy_promise s) τ = Settled τ s
  Settles (release a h) τ = Unit {0}

  -- What is settled stays so.
  abbrev pub Stays : Store V → Store V → Type 0
  Stays σ τ = (t : ℕ) → Settled σ t → Settled τ t

  put-Stays :
      (σ : Store V) (s : ℕ) (f : FutureState V)
      → is_undefined f.state ≡ false
      → Stays σ (record σ { states = update σ.states s f })
  put-Stays σ s f d t h = elim (Bool-cases (s == t)) [
    | inl same ↦ rw same d
    | inr other ↦ rw other h
  ]

  pub put-Settled :
      (σ : Store V) (s : ℕ) (f : FutureState V)
      → is_undefined f.state ≡ false
      → Settled (record σ { states = update σ.states s f }) s
  put-Settled σ s f d = let same : (s == s) ≡ true = ground arith in rw same d

  destroyed : (f : FutureState V) → is_undefined (about_to_destroy_promise f).0.state ≡ false
  unfolding about_to_destroy_promise
  destroyed f = ground arith

  after_set_value-Stays :
      (σ : Store V) (s : ℕ) (v : Option V)
      → Stays σ (after_set_value σ s (set_value_locked (σ.states s) v)).1
        × Settled (after_set_value σ s (set_value_locked (σ.states s) v)).1 s
  unfolding after_set_value
  after_set_value-Stays σ s v = elim (set_value_cases (σ.states s) v) [
    | inl (_, e) ↦ rw e (put-Stays σ s _ refl, put-Settled σ s _ refl)
    | inr (inl (d, _, e)) ↦ rw e (λ t h. h, d)
    | inr (inr (d, _, e)) ↦ rw e (λ t h. h, d)
  ]

  release_holder-Stays : (σ : Store V) (a h : ℕ) → Stays σ (release_holder σ a h).1
  unfolding release_holder
  release_holder-Stays σ a h = elim (Bool-cases (mem h (σ.holders a))) [
    | inl m ↦ rw m (λ t e. e)
    | inr n ↦ rw n (λ t e. e)
  ]

  pub Settles-Stays : (a : Action V) (σ τ : Store V) → Stays σ τ → Settles a σ → Settles a τ
  Settles-Stays (set_value s v) σ τ k h = k s h
  Settles-Stays (set_exception s e) σ τ k h = k s h
  Settles-Stays (run c) σ τ k h = k c.promise h
  Settles-Stays (drop c) σ τ k h = k c.promise h
  Settles-Stays (destroy_promise s) σ τ k h = k s h
  Settles-Stays (release a b) σ τ k h = tt

  abbrev pub Good : (Action V → Store V → Option (Store V)) → Type 0
  Good exec' = (a : Action V) (σ τ : Store V) → exec' a σ ≡ some τ → Stays σ τ × Settles a τ

  pub run_all-second :
      (exec' : Action V → Store V → Option (Store V)) (a : Action V) (rest : List (Action V))
      {σ ρ : Store V}
      → exec' a σ ≡ some ρ
      → run_all exec' (a ∷ rest) σ ≡ run_all exec' rest ρ
  run_all-second exec' a rest e = rw (run_all, e) refl

  pub run_all-none :
      (exec' : Action V → Store V → Option (Store V)) (a : Action V) (rest : List (Action V))
      {σ : Store V}
      → exec' a σ ≡ none
      → run_all exec' (a ∷ rest) σ ≡ none
  run_all-none exec' a rest e = rw (run_all, e) refl

  -- The actions of a list settle what each of them settles.
  pub run_all-Settles :
      (exec' : Action V → Store V → Option (Store V))
      → Good exec'
      → (asked : List (Action V)) (σ τ : Store V) → run_all exec' asked σ ≡ some τ
      → Stays σ τ × All (λ a. Settles a τ) asked
  run_all-Settles exec' g [] σ τ h =
      let same : σ ≡ τ = cc in (λ t e. subst (λ ρ. Settled ρ t) same e, tt)
  run_all-Settles exec' g (a ∷ rest) σ τ h = elim (Option-cases (exec' a σ)) [
    | inl n ↦ absurd (cc (run_all-none exec' a rest n))
    | inr (ρ, e) ↦
        go ρ (g a σ ρ e)
          (run_all-Settles exec' g rest ρ τ (sym (run_all-second exec' a rest e) ∙ h))
  ]
    where
      go :
          (ρ : Store V)
          → Stays σ ρ × Settles a ρ
          → Stays ρ τ × All (λ b. Settles b τ) rest
          → Stays σ τ × (Settles a τ × All (λ b. Settles b τ) rest)
      go ρ (k, d) (k', ds) = (λ t h. k' t (k t h), (Settles-Stays a ρ τ k' d, ds))

  set_result-asks :
      (p : ℕ) (r : Result Exception (Option V)) (τ : Store V)
      → All (λ a. Settles a τ) (set_result p r)
      → Settled τ p
  unfolding set_result
  set_result-asks p (ok v) τ h = h.0
  set_result-asks p (throw e) τ h = h.0

module _ (V : Type 0) where
  drop_callable-asks :
      (c : Callable) (k : Continuation) (τ : Store V)
      → All (λ a. Settles a τ) (drop_callable c k)
      → Settled τ k.promise
  unfolding drop_callable
  drop_callable-asks (user f) k τ h = h.0
  drop_callable-asks (activate a) k τ h = h.0
  drop_callable-asks (notify t) k τ h = h.0

module _ {V : Type 0} (call : ℕ → Outcome V → Result Exception (Option V)) where
  pub step-Stays : (a : Action V) (σ : Store V) → Stays σ (step call a σ).1
  unfolding step set_exception_locked
  step-Stays (set_value s v) σ = (after_set_value-Stays σ s v).0
  step-Stays (set_exception s e) σ = put-Stays σ s _ refl
  step-Stays (run k) σ = λ t h. h
  step-Stays (drop k) σ = λ t h. h
  step-Stays (destroy_promise s) σ = put-Stays σ s _ (destroyed (σ.states s))
  step-Stays (release a h) σ = release_holder-Stays σ a h

  run_callable-asks :
      (c : Callable) (k : Continuation) (σ τ : Store V)
      → All (λ a. Settles a τ) (run_callable call c k σ)
      → Settled τ k.promise
  unfolding run_callable
  run_callable-asks (user f) k σ τ h = set_result-asks k.promise _ τ h
  run_callable-asks (activate a) k σ τ h = h.1.0
  run_callable-asks (notify t) k σ τ h = h.1.0

  pub step-Settles :
      (a : Action V) (σ τ : Store V)
      → Stays (step call a σ).1 τ
      → All (λ b. Settles b τ) (step call a σ).0
      → Settles a τ
  unfolding step set_exception_locked
  step-Settles (set_value s v) σ τ k h = k s (after_set_value-Stays σ s v).1
  step-Settles (set_exception s e) σ τ k h = k s (put-Settled σ s _ refl)
  step-Settles (run c) σ τ k h = run_callable-asks c.callable c σ τ h
  step-Settles (drop c) σ τ k h = drop_callable-asks V c.callable c τ h
  step-Settles (destroy_promise s) σ τ k h = k s (put-Settled σ s _ (destroyed (σ.states s)))
  step-Settles (release a b) σ τ k h = tt

  -- An action that ends has settled what it is about, and has unsettled nothing.
  pub exec-Settles :
      (n : ℕ) (a : Action V) (σ τ : Store V) → exec call n a σ ≡ some τ → Stays σ τ × Settles a τ
  unfolding exec
  exec-Settles zero a σ τ h = absurd (cc)
  exec-Settles (suc n) a σ τ h =
      go (run_all-Settles (exec call n) (exec-Settles n) (step call a σ).0 (step call a σ).1 τ h)
    where
      go :
          Stays (step call a σ).1 τ × All (λ b. Settles b τ) (step call a σ).0
          → Stays σ τ × Settles a τ
      go (k, asked) = (λ t e. k t (step-Stays a σ t e), step-Settles a σ τ k asked)
