-- ===== src/Async/Future/Guard.antt =====
-- include/azul/async/Future.hpp: while a closure that waits on a state holds the activator, the
-- future of `WhenAll` is not set.
use libazul.Base.{
  All, ℕ, ◌≡◌, ◌≢◌, refl, sym, ◌⊎◌, true, false, List, [], map, Option, Result, ok, throw, ◌==◌,
  ==_iff, update, Bool-cases, inl, inr, arith,
}
use libazul.Async.FutureState.{
  Exception, Callable, user, activate, notify, Continuation, FutureState, Outcome, is_undefined,
  set_value_locked, set_exception_locked, about_to_destroy_promise, set_value_cases,
}
use libazul.Async.Future.{
  Store, Action, set_value, set_exception, run, drop, destroy_promise, release, step,
  after_set_value, release_holder, set_result, run_callable, mem, without, is_empty, put,
}
use libazul.Async.Future.Runs.{Ends, Runs, ends, done, next}
use libazul.Async.Future.Effects.{Ends-Over, Runs-Over}
use libazul.Async.Future.Holders.{mem-without_of_ne, is_empty_of_mem}
use libazul.Async.Future.Safe.{
  ClearOf, Clear, Safe, runs-Safe, drops-Safe, drop_callable-Safe, Away, open_before, Settles-Away,
}

module _ {V : Type 0} (a p s : ℕ) where
  -- The future `a` is not set, and the one closure with the promise `p` holds its activator; if a
  -- state keeps that closure, the state is `s`.
  pub record Guard (σ : Store V) : Type 0 where
    pub open_still : is_undefined (σ.states a).state ≡ true
    pub held : mem p (σ.holders a) ≡ true
    pub clear : (t : ℕ) → All (Clear a) (σ.states t).continuations
    pub sole : (t : ℕ) → (s == t) ≡ false → All (λ k. k.promise ≢ p) (σ.states t).continuations

  -- One closure less, or as many, in another state.
  put-Guard :
      (σ : Store V) (x : ℕ) (f : FutureState V)
      → Guard σ
      → x ≢ a
      → (f.continuations ≡ (σ.states x).continuations) ⊎ (f.continuations ≡ [])
      → Guard (put σ x f)
  put-Guard σ x f g n c = record {
    open_still = let other : (x == a) ≡ false = ground arith in rw other g.open_still;
    held = g.held;
    clear = λ t. every t (Clear a) (g.clear t);
    sole = λ t o. every t (λ k. k.promise ≢ p) (g.sole t o);
  }
    where
      every :
          (t : ℕ) (P : Continuation → Type 0)
          → All P (σ.states t).continuations
          → All P ((put σ x f).states t).continuations
      every t P h = elim (Bool-cases (x == t)) [
        | inl m ↦
            let eq : x ≡ t = (==_iff x t).0 m in
            elim c [ inl same ↦ rw (m, same, eq) h | inr nothing ↦ rw (m, nothing) tt ]
        | inr o ↦ rw o h
      ]

  -- What a step does to the guard.
  abbrev Guards : List (Action V) × Store V → Type 0
  Guards r = Guard r.1 × All (Safe a p) r.0

  set_value-Guard :
      (σ : Store V) (x : ℕ) (v : Option V)
      → Guard σ
      → x ≢ a
      → (s == x) ≡ false
      → Guards (after_set_value σ x (set_value_locked (σ.states x) v))
  unfolding after_set_value
  set_value-Guard σ x v g n o = elim (set_value_cases (σ.states x) v) [
    | inl (_, e) ↦ rw e (put-Guard σ x _ g n (inl refl), runs-Safe V a p _ (g.clear x) (g.sole x o))
    | inr (inl (_, _, e)) ↦ rw e (g, tt)
    | inr (inr (_, _, e)) ↦ rw e (g, (n, tt))
  ]

  -- Another holder gives up its hold: this one keeps the activator.
  release_holder-Guard : (σ : Store V) (b h : ℕ) → Guard σ → h ≢ p → Guards (release_holder σ b h)
  unfolding release_holder
  release_holder-Guard σ b h g n = elim (Bool-cases (mem h (σ.holders b))) [
    | inl m ↦ elim (Bool-cases (is_empty (without h (σ.holders b)))) [
      | inl last ↦ rw (m, last) (kept, (other last, tt))
      | inr more ↦ rw (m, more) (kept, tt)
    ]
    | inr o ↦ rw o (g, tt)
  ]
    where
      there : b ≡ a → mem p (without h (σ.holders b)) ≡ true
      there e = rw e (mem-without_of_ne p h (σ.holders a) (λ q. n (sym q)) g.held)

      other : is_empty (without h (σ.holders b)) ≡ true → b ≢ a
      other last e =
          let some_left : _ = is_empty_of_mem p (without h (σ.holders b)) (there e) in absurd (cc)

      kept : Guard (record σ { holders = update σ.holders b (without h (σ.holders b)) })
      kept = record {
        open_still = g.open_still;
        held = elim (Bool-cases (b == a)) [
          | inl m ↦ rw m (there ((==_iff b a).0 m))
          | inr o ↦ rw o g.held
        ];
        clear = g.clear;
        sole = g.sole;
      }

  set_result-Safe :
      (q : ℕ) (r : Result Exception (Option V)) → q ≢ a → All (Safe {V = V} a p) (set_result q r)
  unfolding set_result
  set_result-Safe q (ok v) n = (n, tt)
  set_result-Safe q (throw e) n = (n, tt)

  destroy_promise-Guard :
      (σ : Store V) (x : ℕ)
      → Guard σ
      → x ≢ a
      → (s == x) ≡ false
      → Guard (put σ x (about_to_destroy_promise (σ.states x)).0)
        × All (Safe {V = V} a p) (map drop (about_to_destroy_promise (σ.states x)).1)
  unfolding about_to_destroy_promise
  destroy_promise-Guard σ x g n o =
      (put-Guard σ x _ g n (inr refl), drops-Safe V a p _ (g.clear x) (g.sole x o))

module _ {V : Type 0} (a p s : ℕ) (call : ℕ → Outcome V → Result Exception (Option V)) where
  run_callable-Safe :
      (c : Callable) (k : Continuation) (σ : Store V)
      → ClearOf a c
      → k.promise ≢ a
      → k.promise ≢ p
      → All (Safe a p) (run_callable call c k σ)
  unfolding run_callable
  run_callable-Safe (user f) k σ c n m = set_result-Safe a p s k.promise _ n
  run_callable-Safe (activate b) k σ c n m = (m, (n, tt))
  run_callable-Safe (notify t) k σ c n m = (c, (n, tt))

  -- A safe step keeps the guard, and asks for safe actions.
  step-Guard :
      (b : Action V) (σ : Store V)
      → Guard a p s σ
      → Safe a p b
      → Away s b
      → Guards a p s (step call b σ)
  unfolding step set_exception_locked
  step-Guard (set_value x v) σ g n o = set_value-Guard a p s σ x v g n o
  step-Guard (set_exception x e) σ g n o =
      (put-Guard a p s σ x _ g n (inl refl), runs-Safe V a p _ (g.clear x) (g.sole x o))
  step-Guard (run k) σ g ((n, c), m) o = (g, run_callable-Safe k.callable k σ c n m)
  step-Guard (drop k) σ g ((n, c), m) o = (g, drop_callable-Safe V a p k.callable k n m)
  step-Guard (destroy_promise x) σ g n o = destroy_promise-Guard a p s σ x g n o
  step-Guard (release b h) σ g n o = release_holder-Guard a p s σ b h g n

  mutual
    -- Safe actions that end with `s` not set keep the guard.
    pub Ends-Guard :
        {b : Action V} {σ τ : Store V}
        → Ends call b σ τ
        → is_undefined (τ.states s).state ≡ true
        → Guard a p s σ
        → Safe a p b
        → Guard a p s τ
    Ends-Guard (ends b σ τ runs) u g n =
        let (_, (d, _)) = Ends-Over call (ends b σ τ runs) in
        let (g', ns) = step-Guard b σ g n (Settles-Away s b τ d u) in Runs-Guard runs u g' ns

    pub Runs-Guard :
        {asked : List (Action V)} {σ τ : Store V}
        → Runs call asked σ τ
        → is_undefined (τ.states s).state ≡ true
        → Guard a p s σ
        → All (Safe a p) asked
        → Guard a p s τ
    Runs-Guard (done σ) u g ns = g
    Runs-Guard (next b rest σ ρ τ e runs) u g (n, ns) =
        Runs-Guard runs u (Ends-Guard e (open_before s ρ τ (Runs-Over call runs).0 u) g n) ns
