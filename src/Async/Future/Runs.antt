-- ===== src/Async/Future/Runs.antt =====
-- include/azul/async/Future.hpp: calls that end, as derivations, so that what they do is proved by
-- induction on them. The fuel is gone here.
use libazul.Base.{
  ℕ, zero, suc, ◌≡◌, sym, subst, ◌∙◌, List, [], ◌∷◌, Option, some, Result, Option-cases, inl, inr,
}
use libazul.Async.FutureState.{Exception, Outcome}
use libazul.Async.Future.{Store, Action, step, exec, run_all}
use libazul.Async.Future.Settle.{run_all-second, run_all-none}

module _ {V : Type 0} (call : ℕ → Outcome V → Result Exception (Option V)) where
  mutual
    -- An action with all that it asks for.
    pub data Ends : Action V → Store V → Store V → Type 0 where
      ends :
          (a : Action V) (σ τ : Store V) → Runs (step call a σ).0 (step call a σ).1 τ → Ends a σ τ

    -- Actions one after the other.
    pub data Runs : List (Action V) → Store V → Store V → Type 0 where
      done : (σ : Store V) → Runs [] σ σ
      next :
          (a : Action V) (rest : List (Action V)) (σ ρ τ : Store V)
          → Ends a σ ρ
          → Runs rest ρ τ
          → Runs (a ∷ rest) σ τ

  run_all-Runs :
      (exec' : Action V → Store V → Option (Store V))
      → ((a : Action V) (σ τ : Store V) → exec' a σ ≡ some τ → Ends a σ τ)
      → (asked : List (Action V)) (σ τ : Store V) → run_all exec' asked σ ≡ some τ
      → Runs asked σ τ
  run_all-Runs exec' g [] σ τ h = let same : σ ≡ τ = cc in subst (Runs [] σ) same (done σ)
  run_all-Runs exec' g (a ∷ rest) σ τ h = elim (Option-cases (exec' a σ)) [
    | inl n ↦ absurd (cc (run_all-none exec' a rest n))
    | inr (ρ, e) ↦
        next a rest σ ρ τ (g a σ ρ e)
          (run_all-Runs exec' g rest ρ τ (sym (run_all-second exec' a rest e) ∙ h))
  ]

  pub exec-Ends : (n : ℕ) (a : Action V) (σ τ : Store V) → exec call n a σ ≡ some τ → Ends a σ τ
  unfolding exec
  exec-Ends zero a σ τ h = absurd (cc)
  exec-Ends (suc n) a σ τ h =
      ends a σ τ (run_all-Runs (exec call n) (exec-Ends n) (step call a σ).0 (step call a σ).1 τ h)
