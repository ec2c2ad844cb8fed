-- ===== src/Async/Future/Termination.antt =====
-- include/azul/async/Future.hpp: calls of continuations end. A continuation that waits on a state
-- completes states that were made after it, so calls nest no deeper than there are states.
use Prim.Native.Nat.{min}
use libazul.Base.{
  All, ℕ, zero, suc, ◌+◌, ◌-◌, ◌*◌, ◌≤◌, ◌<◌, ◌≡◌, refl, ◌∙◌, List, [], ◌∷◌, map, Option, some,
  Result, ok, throw, ◌==◌, update, Bool-cases, inl, inr, arith, ==_iff,
}
use libazul.Async.FutureState.{
  Exception, Callable, user, activate, notify, Continuation, FutureState, Outcome, set_value_locked,
  set_exception_locked, about_to_destroy_promise, set_value_cases,
}
use libazul.Async.Future.{
  Store, Action, set_value, set_exception, run, drop, destroy_promise, release, step, exec, run_all,
  after_set_value, drop_callable, release_holder, set_result, run_callable, mem, without, is_empty,
}

-- The least number of a state that a continuation completes.
abbrev pub low : Callable → ℕ → ℕ
low (user f) p = p
low (activate a) p = min a p
low (notify t) p = min t p

abbrev pub low_of : Continuation → ℕ
low_of k = low k.callable k.promise

-- What waits on a state completes later states only.
abbrev pub IsLater : ℕ → ℕ → Continuation → Type 0
IsLater next s k = (s < low_of k) × (low_of k < next)

module _ {V : Type 0} where
  pub record IsOrdered (σ : Store V) : Type 0 where
    pub later : (s : ℕ) → All (IsLater σ.next s) (σ.states s).continuations

  abbrev pub rank : ℕ → Action V → ℕ
  rank next (set_value s v) = 8 * (next - s) + 4
  rank next (set_exception s e) = 8 * (next - s) + 3
  rank next (run k) = 8 * (next - low_of k) + 6
  rank next (drop k) = 8 * (next - low_of k) + 6
  rank next (destroy_promise s) = 8 * (next - s) + 3
  rank next (release a h) = 8 * (next - a) + 5

  abbrev pub Below : ℕ → ℕ → Action V → Type 0
  Below next r a = rank next a < r

  -- Putting a state whose continuations are in order keeps the store in order.
  put-IsOrdered :
      {σ : Store V} (s : ℕ) (f : FutureState V)
      → IsOrdered σ
      → All (IsLater σ.next s) f.continuations
      → IsOrdered (record σ { states = update σ.states s f })
  put-IsOrdered {σ} s f o h = record {
    later = λ t. elim (Bool-cases (s == t)) [
      | inl same ↦ rw same (rw (← (==_iff s t).0 same) h)
      | inr other ↦ rw other (o.later t)
    ];
  }

module _ (V : Type 0) where
  map-run :
      (next s r : ℕ) (ks : List Continuation)
      → 8 * (next - s) ≤ r
      → All (IsLater next s) ks
      → All (Below {V = V} next r) (map run ks)
  map-run next s r [] h o = tt
  map-run next s r (k ∷ ks) h (o, os) = (omega arith, map-run next s r ks h os)

  map-drop :
      (next s r : ℕ) (ks : List Continuation)
      → 8 * (next - s) ≤ r
      → All (IsLater next s) ks
      → All (Below {V = V} next r) (map drop ks)
  map-drop next s r [] h o = tt
  map-drop next s r (k ∷ ks) h (o, os) = (omega arith, map-drop next s r ks h os)

  drop_callable-Below :
      (next : ℕ) (c : Callable) (k : Continuation)
      → All (Below {V = V} next (8 * (next - low c k.promise) + 6)) (drop_callable c k)
  unfolding drop_callable
  drop_callable-Below next (user f) k = (omega arith, tt)
  drop_callable-Below next (activate a) k = (omega arith, (omega arith, tt))
  drop_callable-Below next (notify t) k = (omega arith, tt)

module _ {V : Type 0} where
  after_set_value-Below :
      (σ : Store V) (s : ℕ) (v : Option V)
      → IsOrdered σ
      → All
          (Below σ.next (8 * (σ.next - s) + 4))
          (after_set_value σ s (set_value_locked (σ.states s) v)).0
  unfolding after_set_value
  after_set_value-Below σ s v o = elim (set_value_cases (σ.states s) v) [
    | inl (_, e) ↦ rw e (map-run V σ.next s _ (σ.states s).continuations (omega arith) (o.later s))
    | inr (inl (_, _, e)) ↦ rw e tt
    | inr (inr (_, _, e)) ↦ rw e (omega arith, tt)
  ]

  release_holder-Below :
      (σ : Store V) (a h : ℕ) → All (Below σ.next (8 * (σ.next - a) + 5)) (release_holder σ a h).0
  unfolding release_holder
  release_holder-Below σ a h = elim (Bool-cases (mem h (σ.holders a))) [
    | inl m ↦ elim (Bool-cases (is_empty (without h (σ.holders a)))) [
      | inl last ↦ rw (m, last) (omega arith, tt)
      | inr more ↦ rw (m, more) tt
    ]
    | inr n ↦ rw n tt
  ]

  set_result-Below :
      (next p : ℕ) (r : Result Exception (Option V))
      → All (Below next (8 * (next - p) + 6)) (set_result p r)
  unfolding set_result
  set_result-Below next p (ok v) = (omega arith, tt)
  set_result-Below next p (throw e) = (omega arith, tt)

  -- What `IsOrdered` looks at, and how an action may change it.
  abbrev pub Keeps : Store V → Store V → Type 0
  Keeps σ τ = IsOrdered τ × (τ.next ≡ σ.next)

  after_set_value-Keeps :
      (σ : Store V) (s : ℕ) (v : Option V)
      → IsOrdered σ
      → Keeps σ (after_set_value σ s (set_value_locked (σ.states s) v)).1
  unfolding after_set_value
  after_set_value-Keeps σ s v o = elim (set_value_cases (σ.states s) v) [
    | inl (_, e) ↦ rw e (put-IsOrdered s _ o (o.later s), refl)
    | inr (inl (_, _, e)) ↦ rw e (o, refl)
    | inr (inr (_, _, e)) ↦ rw e (o, refl)
  ]

  release_holder-Keeps : (σ : Store V) (a h : ℕ) → IsOrdered σ → Keeps σ (release_holder σ a h).1
  unfolding release_holder
  release_holder-Keeps σ a h o = elim (Bool-cases (mem h (σ.holders a))) [
    | inl m ↦ rw m (record { later = o.later }, refl)
    | inr n ↦ rw n (o, refl)
  ]

module _ {V : Type 0} (call : ℕ → Outcome V → Result Exception (Option V)) where
  run_callable-Below :
      (c : Callable) (k : Continuation) (σ : Store V)
      → All (Below σ.next (8 * (σ.next - low c k.promise) + 6)) (run_callable call c k σ)
  unfolding run_callable
  run_callable-Below (user f) k σ = set_result-Below σ.next k.promise _
  run_callable-Below (activate a) k σ = (omega arith, (omega arith, tt))
  run_callable-Below (notify t) k σ = (omega arith, (omega arith, tt))

  -- An action asks for actions of lower rank only, and keeps the order.
  pub step-Below :
      (a : Action V) (σ : Store V)
      → IsOrdered σ
      → All (Below σ.next (rank σ.next a)) (step call a σ).0
  unfolding step about_to_destroy_promise
  step-Below (set_value s v) σ o = after_set_value-Below σ s v o
  step-Below (set_exception s e) σ o =
      map-run V σ.next s _ (σ.states s).continuations (omega arith) (o.later s)
  step-Below (run k) σ o = run_callable-Below k.callable k σ
  step-Below (drop k) σ o = drop_callable-Below V σ.next k.callable k
  step-Below (destroy_promise s) σ o =
      map-drop V σ.next s _ (σ.states s).continuations (omega arith) (o.later s)
  step-Below (release a h) σ o = release_holder-Below σ a h

  pub step-Keeps : (a : Action V) (σ : Store V) → IsOrdered σ → Keeps σ (step call a σ).1
  unfolding step about_to_destroy_promise set_exception_locked
  step-Keeps (set_value s v) σ o = after_set_value-Keeps σ s v o
  step-Keeps (set_exception s e) σ o = (put-IsOrdered s _ o (o.later s), refl)
  step-Keeps (run k) σ o = (o, refl)
  step-Keeps (drop k) σ o = (o, refl)
  step-Keeps (destroy_promise s) σ o = (put-IsOrdered s _ o tt, refl)
  step-Keeps (release a h) σ o = release_holder-Keeps σ a h o

  -- The result of an action that ends.
  abbrev pub Ends : Store V → Option (Store V) → Type 0
  Ends σ r = (τ : Store V) × (r ≡ some τ) × Keeps σ τ

  run_all-cons :
      (exec' : Action V → Store V → Option (Store V)) (a : Action V) (rest : List (Action V))
      {σ τ : Store V}
      → exec' a σ ≡ some τ
      → run_all exec' (a ∷ rest) σ ≡ run_all exec' rest τ
  run_all-cons exec' a rest e = rw (run_all, e) refl

  Ends-trans : (σ τ : Store V) {r : Option (Store V)} → Keeps σ τ → Ends τ r → Ends σ r
  Ends-trans σ τ (_, n) (υ, e, (o, m)) = (υ, e, (o, m ∙ n))

  run_all-Ends :
      (exec' : Action V → Store V → Option (Store V)) (N r : ℕ)
      → ((a : Action V) (σ : Store V)
          → IsOrdered σ
          → σ.next ≡ N
          → rank N a < r
          → Ends σ (exec' a σ))
      → (asked : List (Action V)) (σ : Store V) → IsOrdered σ
      → σ.next ≡ N
      → All (Below N r) asked
      → Ends σ (run_all exec' asked σ)
  run_all-Ends exec' N r h [] σ o e b = (σ, refl, (o, refl))
  run_all-Ends exec' N r h (a ∷ rest) σ o e (b, bs) =
      go (h a σ o e b) (λ τ k. run_all-Ends exec' N r h rest τ k.0 (k.1 ∙ e) bs)
    where
      go :
          Ends σ (exec' a σ)
          → ((τ : Store V) → Keeps σ τ → Ends τ (run_all exec' rest τ))
          → Ends σ (run_all exec' (a ∷ rest) σ)
      go (τ, eq, k) onwards = rw (run_all-cons exec' a rest eq) (Ends-trans σ τ k (onwards τ k))

  Below-mono : (N r q : ℕ) (xs : List (Action V)) → r ≤ q → All (Below N r) xs → All (Below N q) xs
  Below-mono N r q [] h b = tt
  Below-mono N r q (a ∷ rest) h (b, bs) = (omega arith, Below-mono N r q rest h bs)

  -- With fuel above its rank an action ends, with everything that it asks for, and the store stays
  -- in order.
  pub exec_total :
      (n : ℕ) (a : Action V) (σ : Store V)
      → IsOrdered σ
      → rank σ.next a < n
      → Ends σ (exec call n a σ)
  unfolding exec
  exec_total zero a σ o h = absurd (omega arith)
  exec_total (suc n) a σ o h = Ends-trans σ (step call a σ).1 kept (
      run_all-Ends (exec call n) σ.next n (λ b ρ ob eb hb. exec_total n b ρ ob (rw eb hb))
        (step call a σ).0 (step call a σ).1 kept.0 kept.1
        (Below-mono σ.next (rank σ.next a) n (step call a σ).0 (omega arith) (step-Below a σ o)))
    where
      kept : Keeps σ (step call a σ).1
      kept = step-Keeps a σ o
