-- ===== src/Async/Future/Local.antt =====
-- include/azul/async/Future.hpp: an action touches the state that it is about and later ones only.
-- So a promise that was completed keeps its value while its continuations run.
use libazul.Base.{
  All, ℕ, zero, suc, ◌≤◌, ◌<◌, ◌≡◌, refl, sym, subst, ◌∙◌, false, List, [], ◌∷◌, map, Option, some,
  Result, ok, throw, ◌==◌, update, Bool-cases, Option-cases, inl, inr, arith,
}
use libazul.Async.FutureState.{
  Exception, Callable, user, activate, notify, Continuation, FutureState, Outcome, set_value_locked,
  about_to_destroy_promise, set_value_cases,
}
use libazul.Async.Future.{
  Store, Action, set_value, set_exception, run, drop, destroy_promise, release, step, exec, run_all,
  after_set_value, drop_callable, release_holder, set_result, run_callable, mem, is_empty, without,
}
use libazul.Async.Future.Termination.{IsOrdered, IsLater, low, low_of, step-Keeps}
use libazul.Async.Future.Settle.{run_all-second, run_all-none}

module _ {V : Type 0} where
  -- The least number of a state that an action touches.
  abbrev pub floor : Action V → ℕ
  floor (set_value s v) = s
  floor (set_exception s e) = s
  floor (run k) = low_of k
  floor (drop k) = low_of k
  floor (destroy_promise s) = s
  floor (release a h) = a

  abbrev pub AtLeast : ℕ → Action V → Type 0
  AtLeast m a = m ≤ floor a

module _ (V : Type 0) where
  map-run-AtLeast :
      (next s : ℕ) (ks : List Continuation)
      → All (IsLater next s) ks
      → All (AtLeast {V = V} (suc s)) (map run ks)
  map-run-AtLeast next s [] h = tt
  map-run-AtLeast next s (k ∷ ks) (h, hs) = (h.0, map-run-AtLeast next s ks hs)

  map-drop-AtLeast :
      (next s : ℕ) (ks : List Continuation)
      → All (IsLater next s) ks
      → All (AtLeast {V = V} (suc s)) (map drop ks)
  map-drop-AtLeast next s [] h = tt
  map-drop-AtLeast next s (k ∷ ks) (h, hs) = (h.0, map-drop-AtLeast next s ks hs)

module _ {V : Type 0} where
  -- The states below `m` are the same.
  abbrev pub SameBelow : ℕ → Store V → Store V → Type 0
  SameBelow m σ τ = (t : ℕ) → t < m → τ.states t ≡ σ.states t

  put-SameBelow :
      (σ : Store V) (s : ℕ) (f : FutureState V)
      → SameBelow s σ (record σ { states = update σ.states s f })
  put-SameBelow σ s f t h = let other : (s == t) ≡ false = ground arith in rw other refl

  AtLeast-mono : (m n : ℕ) (xs : List (Action V)) → m ≤ n → All (AtLeast n) xs → All (AtLeast m) xs
  AtLeast-mono m n [] h b = tt
  AtLeast-mono m n (x ∷ xs) h (b, bs) = (omega arith, AtLeast-mono m n xs h bs)

  -- What one step does: the states below are the same, and what it asks for is not below either.
  abbrev IsLocal : ℕ → Store V → List (Action V) × Store V → Type 0
  IsLocal m σ r = SameBelow m σ r.1 × All (AtLeast m) r.0

  after_set_value-IsLocal :
      (σ : Store V) (s : ℕ) (v : Option V)
      → IsOrdered σ
      → IsLocal s σ (after_set_value σ s (set_value_locked (σ.states s) v))
  unfolding after_set_value
  after_set_value-IsLocal σ s v o = elim (set_value_cases (σ.states s) v) [
    | inl (_, e) ↦ rw e (
      put-SameBelow σ s _,
      AtLeast-mono s (suc s) _ (omega arith)
          (map-run-AtLeast V σ.next s (σ.states s).continuations (o.later s)),
    )
    | inr (inl (_, _, e)) ↦ rw e (λ t h. refl, tt)
    | inr (inr (_, _, e)) ↦ rw e (λ t h. refl, (omega arith, tt))
  ]

  release_holder-IsLocal : (σ : Store V) (a h : ℕ) → IsLocal a σ (release_holder σ a h)
  unfolding release_holder
  release_holder-IsLocal σ a h = elim (Bool-cases (mem h (σ.holders a))) [
    | inl m ↦ elim (Bool-cases (is_empty (without h (σ.holders a)))) [
      | inl last ↦ rw (m, last) (λ t e. refl, (omega arith, tt))
      | inr more ↦ rw (m, more) (λ t e. refl, tt)
    ]
    | inr n ↦ rw n (λ t e. refl, tt)
  ]

  set_result-AtLeast : (p : ℕ) (r : Result Exception (Option V)) → All (AtLeast p) (set_result p r)
  unfolding set_result
  set_result-AtLeast p (ok v) = (omega arith, tt)
  set_result-AtLeast p (throw e) = (omega arith, tt)

module _ (V : Type 0) where
  drop_callable-AtLeast :
      (c : Callable) (k : Continuation)
      → All (AtLeast {V = V} (low c k.promise)) (drop_callable c k)
  unfolding drop_callable
  drop_callable-AtLeast (user f) k = (omega arith, tt)
  drop_callable-AtLeast (activate a) k = (omega arith, (omega arith, tt))
  drop_callable-AtLeast (notify t) k = (omega arith, tt)

module _ {V : Type 0} (call : ℕ → Outcome V → Result Exception (Option V)) where
  run_callable-AtLeast :
      (c : Callable) (k : Continuation) (σ : Store V)
      → All (AtLeast (low c k.promise)) (run_callable call c k σ)
  unfolding run_callable
  run_callable-AtLeast (user f) k σ = set_result-AtLeast k.promise _
  run_callable-AtLeast (activate a) k σ = (omega arith, (omega arith, tt))
  run_callable-AtLeast (notify t) k σ = (omega arith, (omega arith, tt))

  step-IsLocal : (a : Action V) (σ : Store V) → IsOrdered σ → IsLocal (floor a) σ (step call a σ)
  unfolding step about_to_destroy_promise
  step-IsLocal (set_value s v) σ o = after_set_value-IsLocal σ s v o
  step-IsLocal (set_exception s e) σ o = (
    put-SameBelow σ s _,
    AtLeast-mono s (suc s) _ (omega arith)
        (map-run-AtLeast V σ.next s (σ.states s).continuations (o.later s)),
  )
  step-IsLocal (run k) σ o = (λ t h. refl, run_callable-AtLeast k.callable k σ)
  step-IsLocal (drop k) σ o = (λ t h. refl, drop_callable-AtLeast V k.callable k)
  step-IsLocal (destroy_promise s) σ o = (
    put-SameBelow σ s _,
    AtLeast-mono s (suc s) _ (omega arith)
        (map-drop-AtLeast V σ.next s (σ.states s).continuations (o.later s)),
  )
  step-IsLocal (release a h) σ o = release_holder-IsLocal σ a h

  abbrev Local : (Action V → Store V → Option (Store V)) → Type 0
  Local exec' =
      (a : Action V) (σ τ : Store V)
      → IsOrdered σ
      → exec' a σ ≡ some τ
      → IsOrdered τ × SameBelow (floor a) σ τ

  pub run_all-Local :
      (exec' : Action V → Store V → Option (Store V)) (m : ℕ)
      → Local exec'
      → (asked : List (Action V)) (σ τ : Store V) → IsOrdered σ
      → All (AtLeast m) asked
      → run_all exec' asked σ ≡ some τ
      → IsOrdered τ × SameBelow m σ τ
  run_all-Local exec' m g [] σ τ o b h =
      let same : σ ≡ τ = cc in
      (subst IsOrdered same o, λ t e. subst (λ ρ. ρ.states t ≡ σ.states t) same refl)
  run_all-Local exec' m g (a ∷ rest) σ τ o (b, bs) h = elim (Option-cases (exec' a σ)) [
    | inl n ↦ absurd (cc (run_all-none exec' a rest n))
    | inr (ρ, e) ↦
        go ρ (g a σ ρ o e)
          (λ o'. run_all-Local exec' m g rest ρ τ o' bs (sym (run_all-second exec' a rest e) ∙ h))
  ]
    where
      go :
          (ρ : Store V)
          → IsOrdered ρ × SameBelow (floor a) σ ρ
          → (IsOrdered ρ → IsOrdered τ × SameBelow m ρ τ)
          → IsOrdered τ × SameBelow m σ τ
      go ρ (o', k) f = ((f o').0, λ t lt. (f o').1 t lt ∙ k t (omega arith))

  -- An action keeps the order, and leaves the states below it as they were.
  pub exec_local :
      (n : ℕ) (a : Action V) (σ τ : Store V)
      → IsOrdered σ
      → exec call n a σ ≡ some τ
      → IsOrdered τ × SameBelow (floor a) σ τ
  unfolding exec
  exec_local zero a σ τ o h = absurd (cc)
  exec_local (suc n) a σ τ o h = go (step-IsLocal a σ o) (λ b.
      run_all-Local (exec call n) (floor a) (exec_local n) (step call a σ).0 (step call a σ).1 τ
        (step-Keeps call a σ o).0 b h)
    where
      go :
          IsLocal (floor a) σ (step call a σ)
          → (All (AtLeast (floor a)) (step call a σ).0
              → IsOrdered τ × SameBelow (floor a) (step call a σ).1 τ)
          → IsOrdered τ × SameBelow (floor a) σ τ
      go (k, b) f = ((f b).0, λ t lt. (f b).1 t lt ∙ k t lt)
