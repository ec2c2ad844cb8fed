-- ===== src/Async/Promise/Watched.antt =====
-- include/azul/async/Future.hpp: who holds the activator of `WhenAll` waits on a future that is not
-- set, so that the last future that is set also sets the one of `WhenAll`.
use libazul.Base.{
  All, ℕ, ◌≡◌, refl, subst, ◌⊎◌, true, false, List, [], ◌∷◌, ◌++◌, Bool-cases, inl, inr,
}
use libazul.Async.FutureState.{Callable, activate, Continuation, is_undefined}
use libazul.Async.Future.{Store, mem, is_empty}
use libazul.Async.Future.Settle.{Settled}
use libazul.Async.Future.Frees.{Freed, FreedBy, Frees-Settled}
use libazul.Async.Future.Effects.{Effect}
use libazul.Async.Future.Holders.{mem_of_not_empty}

-- Among the continuations is the closure with promise `h` that holds the activator of `a`.
abbrev pub Closure : (a h : ℕ) → List Continuation → Type 0
Closure a h [] = ⊥
Closure a h (k ∷ ks) = ((k.callable ≡ activate a) × (k.promise ≡ h)) ⊎ Closure a h ks

pub Closure-more : (a h : ℕ) (ks js : List Continuation) → Closure a h ks → Closure a h (ks ++ js)
Closure-more a h [] js c = absurd c
Closure-more a h (k ∷ ks) js (inl e) = inl e
Closure-more a h (k ∷ ks) js (inr c) = inr (Closure-more a h ks js c)

pub Closure-last :
    (a h s : ℕ) (ks : List Continuation)
    → Closure a h (ks ++ record { callable = activate a; promise = h; source = s } ∷ [])
Closure-last a h s [] = inl (refl, refl)
Closure-last a h s (k ∷ ks) = inr (Closure-last a h s ks)

module _ {V : Type 0} where
  FreedBy-activate :
      (c : Callable) (a h : ℕ) (τ : Store V)
      → c ≡ activate a
      → FreedBy c h τ
      → mem h (τ.holders a) ≡ false
  FreedBy-activate c a h τ e f = let f' : FreedBy (activate a) h τ = rw e at f in f'

  -- A closure that was called or destroyed holds nothing.
  Closure-Freed :
      (a h : ℕ) (ks : List Continuation) (τ : Store V)
      → Closure a h ks
      → All (Freed τ) ks
      → mem h (τ.holders a) ≡ false
  Closure-Freed a h [] τ c f = absurd c
  Closure-Freed a h (k ∷ ks) τ (inl (e, q)) (f, fs) =
      subst (λ x. mem x (τ.holders a) ≡ false) q (FreedBy-activate k.callable a k.promise τ e f)
  Closure-Freed a h (k ∷ ks) τ (inr c) (f, fs) = Closure-Freed a h ks τ c fs

  -- The closure waits on `s`, which is not set.
  abbrev pub Waits : (a h s : ℕ) → Store V → Type 0
  Waits a h s σ = (is_undefined (σ.states s).state ≡ true) × Closure a h (σ.states s).continuations

  -- A closure that still holds the activator still waits.
  pub Waits-Effect :
      (a h s : ℕ) (σ τ : Store V)
      → Effect σ τ
      → mem h (τ.holders a) ≡ true
      → Waits a h s σ
      → Waits a h s τ
  Waits-Effect a h s σ τ r m (u, c) = elim (Bool-cases (is_undefined (τ.states s).state)) [
    | inl still ↦ let same : τ.states s ≡ σ.states s = r.frees.same s still in rw same (u, c)
    | inr set ↦
        let gone : _ = Closure-Freed a h (σ.states s).continuations τ c (r.frees.turned s u set) in
        absurd (cc)
  ]

  -- Who holds the activator of `a`: the local variables, and closures that wait on some of `ss`;
  -- once nobody does, `a` is set.
  pub record Watched (a : ℕ) (ss : List ℕ) (σ : Store V) : Type 0 where
    pub waits :
        (h : ℕ)
        → mem h (σ.holders a) ≡ true
        → (h ≡ a) ⊎ ((s : ℕ) × (mem s ss ≡ true) × Waits a h s σ)
    pub last : is_empty (σ.holders a) ≡ true → Settled σ a

  -- Holders there are no more than before.
  pub held_before :
      (a h : ℕ) (σ τ : Store V)
      → Effect σ τ
      → mem h (τ.holders a) ≡ true
      → mem h (σ.holders a) ≡ true
  held_before a h σ τ r m = elim (Bool-cases (mem h (σ.holders a))) [
    | inl e ↦ e
    | inr n ↦ let gone : _ = r.frees.shrinks a h n in absurd (cc)
  ]

  -- Calls keep that.
  pub Watched-Effect :
      (a : ℕ) (ss : List ℕ) (σ τ : Store V) → Effect σ τ → Watched a ss σ → Watched a ss τ
  Watched-Effect a ss σ τ r w = record {
    waits = λ h m. elim (w.waits h (held_before a h σ τ r m)) [
      | inl e ↦ inl e
      | inr (s, i, c) ↦ inr (s, i, Waits-Effect a h s σ τ r m c)
    ];
    last = λ e. elim (Bool-cases (is_empty (σ.holders a))) [
      | inl m ↦ Frees-Settled σ τ a r.frees (w.last m)
      | inr m ↦ r.frees.emptied a m e
    ];
  }

  -- When all of `ss` are set and the local variables are gone, `a` is set.
  pub Watched-Settled :
      (a : ℕ) (ss : List ℕ) (σ : Store V)
      → Watched a ss σ
      → mem a (σ.holders a) ≡ false
      → ((s : ℕ) → mem s ss ≡ true → Settled σ s)
      → Settled σ a
  Watched-Settled a ss σ w n d = elim (Bool-cases (is_empty (σ.holders a))) [
    | inl e ↦ w.last e
    | inr e ↦
        let (h, m) = mem_of_not_empty (σ.holders a) e in
        elim (w.waits h m) [
          | inl here ↦
              let m' : mem a (σ.holders a) ≡ true =
                subst (λ x. mem x (σ.holders a) ≡ true) here m in
              absurd (cc)
          | inr (s, i, (u, c)) ↦ let set : _ = d s i in absurd (cc)
        ]
  ]
