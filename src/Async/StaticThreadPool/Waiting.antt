-- ===== src/Async/StaticThreadPool/Waiting.antt =====
-- include/azul/async/StaticThreadPool.hpp: what the tasks of a pool wait for, task by task in the
-- order in which they were added.
use libazul.Base.{
  ℕ, ◌≤◌, ◌<◌, ◌≡◌, refl, ◌⊎◌, true, List, [], ◌∷◌, ◌++◌, Option, none, some, ◌==◌, Bool-cases, inl,
  inr, arith,
}
use libazul.Async.Future.{Store, mem}
use libazul.Async.Future.Settle.{Settled}
use libazul.Async.Promise.Watched.{Watched-Settled}
use libazul.Async.Promise.Preserves.{Joined, Preserves, Preserves-refl}
use libazul.Async.Task.{Task, task_is_ready, ready_in}

module _ {V : Type 0} where
  -- A future that is set, or whose promise is one of `es`.
  abbrev pub Expected : Store V → List ℕ → ℕ → Type 0
  Expected σ es s = Settled σ s ⊎ (mem s es ≡ true)

  -- The future `a` is that of a `WhenAll` on futures that are expected.
  pub record Fed (n : ℕ) (σ : Store V) (es : List ℕ) (a : ℕ) : Type 0 where
    pub all : List ℕ
    pub made : a < n
    pub joined : Joined a all σ
    pub expected : (s : ℕ) → mem s all ≡ true → Expected σ es s

  -- A task waits for nothing, or for a future that will be set once those of `es` are.
  abbrev pub Served : ℕ → Store V → List ℕ → Option ℕ → Type 0
  Served n σ es none = Unit
  Served n σ es (some a) = Fed n σ es a

  -- Each task waits only for futures that are set, of `es`, or of tasks before it; `n` is above all
  -- of them.
  abbrev pub InOrder : ℕ → Store V → List ℕ → List (Task V) → Type 0
  InOrder n σ es [] = Unit
  InOrder n σ es (t ∷ ts) = Served n σ es t.dependency × InOrder n σ (t.promise ∷ es) ts

  -- The promises of `es` are set, or of `fs`.
  abbrev pub Within : Store V → (es fs : List ℕ) → Type 0
  Within τ es fs = (s : ℕ) → mem s es ≡ true → Expected τ fs s

  Within-cons : (τ : Store V) (p : ℕ) (es fs : List ℕ) → Within τ es fs → Within τ (p ∷ es) (p ∷ fs)
  Within-cons τ p es fs c s m = elim (Bool-cases (p == s)) [
    | inl e ↦ inr (ground arith)
    | inr n ↦ elim (c s (rw n at m)) [ inl d ↦ inl d | inr i ↦ inr (ground arith) ]
  ]

  Served-Preserves :
      (n m : ℕ) (d : Option ℕ) (es fs : List ℕ) (σ τ : Store V)
      → n ≤ m
      → Preserves n σ τ
      → Within τ es fs
      → Served n σ es d
      → Served m τ fs d
  Served-Preserves n m none es fs σ τ l r c h = tt
  Served-Preserves n m (some a) es fs σ τ l r c h = record {
    all = h.all;
    made = omega (arith, l, h.made);
    joined = r.joined a h.all h.made h.joined;
    expected = λ s i. elim (h.expected s i) [
      | inl d ↦ inl (r.stays s (omega (arith, h.made, h.joined.each_made s i)) d)
      | inr j ↦ c s j
    ];
  }

  pub InOrder-Preserves :
      (n m : ℕ) (ts : List (Task V)) (es fs : List ℕ) (σ τ : Store V)
      → n ≤ m
      → Preserves n σ τ
      → Within τ es fs
      → InOrder n σ es ts
      → InOrder m τ fs ts
  InOrder-Preserves n m [] es fs σ τ l r c h = tt
  InOrder-Preserves n m (t ∷ ts) es fs σ τ l r c (h, hs) = (
    Served-Preserves n m t.dependency es fs σ τ l r c h,
    InOrder-Preserves n m ts (t.promise ∷ es) (t.promise ∷ fs) σ τ l r
        (Within-cons τ t.promise es fs c) hs,
  )

  -- A task that waits for futures that are set is ready.
  pub Served-is_ready :
      (n : ℕ) (σ : Store V) (t : Task V) → Served n σ [] t.dependency → task_is_ready σ t ≡ true
  unfolding task_is_ready
  Served-is_ready n σ t h = go t.dependency h
    where
      go : (d : Option ℕ) → Served n σ [] d → ready_in σ d ≡ true
      go none h = refl
      go (some a) h =
          let d : Settled σ a =
            Watched-Settled a h.all σ h.joined.watched h.joined.let_go
              (λ s i. elim (h.expected s i) [ inl d ↦ d | inr m ↦ absurd (cc) ]) in
          rw d refl

  Within-swap : (τ : Store V) (p q : ℕ) (es : List ℕ) → Within τ (p ∷ q ∷ es) (q ∷ p ∷ es)
  Within-swap τ p q es s m = inr (ground arith)

  -- A task that is taken out is expected by all the others.
  pub InOrder-take :
      (n : ℕ) (σ : Store V) (xs ys : List (Task V)) (t : Task V) (es : List ℕ)
      → InOrder n σ es (xs ++ t ∷ ys)
      → InOrder n σ (t.promise ∷ es) (xs ++ ys)
  InOrder-take n σ [] ys t es (h, hs) = hs
  InOrder-take n σ (x ∷ xs) ys t es (h, hs) = (
    Served-Preserves n n x.dependency es (t.promise ∷ es) σ σ (omega arith) (Preserves-refl n σ)
        (λ s m. inr (ground arith)) h,
    InOrder-Preserves n n (xs ++ ys) (t.promise ∷ x.promise ∷ es) (x.promise ∷ t.promise ∷ es) σ σ
        (omega arith) (Preserves-refl n σ) (Within-swap σ t.promise x.promise es)
        (InOrder-take n σ xs ys t (x.promise ∷ es) hs),
  )
