-- ===== src/Async/Future/Effects.antt =====
-- include/azul/async/Future.hpp: all that a call which ends has done, by induction on its derivation.
use libazul.Base.{All, ℕ, List, [], ◌∷◌, Option, Result}
use libazul.Async.FutureState.{Exception, Outcome}
use libazul.Async.Future.{Store, Action, step}
use libazul.Async.Future.Settle.{Settles, Stays, Settles-Stays, step-Stays, step-Settles}
use libazul.Async.Future.Runs.{Ends, Runs, ends, done, next}
use libazul.Async.Future.Steps.{step-Frees}
use libazul.Async.Future.Frees.{Frees, Released, Released-shrinks, Frees-refl, Frees-trans}

module _ {V : Type 0} where
  -- What is settled stays so, and holds are given up only.
  pub record Effect (σ τ : Store V) : Type 0 where
    pub stays : Stays σ τ
    pub frees : Frees σ τ

  pub Effect-refl : (σ : Store V) → Effect σ σ
  Effect-refl σ = record { stays = λ t h. h; frees = Frees-refl σ }

  pub Effect-trans : (σ ρ τ : Store V) → Effect σ ρ → Effect ρ τ → Effect σ τ
  Effect-trans σ ρ τ q r = record {
    stays = λ t h. r.stays t (q.stays t h);
    frees = Frees-trans σ ρ τ q.frees r.frees;
  }

  -- An action is over when it has settled its state and freed its holds.
  abbrev pub Over : Store V → Action V → Type 0
  Over τ a = Settles a τ × Released τ a

  All-Over :
      (asked : List (Action V)) (τ : Store V)
      → All (Over τ) asked
      → All (λ b. Settles b τ) asked × All (Released τ) asked
  All-Over [] τ h = (tt, tt)
  All-Over (a ∷ rest) τ (h, hs) = let (s, r) = All-Over rest τ hs in ((h.0, s), (h.1, r))

  Over-later : (a : Action V) (ρ τ : Store V) → Effect ρ τ → Over ρ a → Over τ a
  Over-later a ρ τ r (s, h) = (Settles-Stays a ρ τ r.stays s, Released-shrinks a ρ τ r.frees h)

module _ {V : Type 0} (call : ℕ → Outcome V → Result Exception (Option V)) where
  step-Over :
      (a : Action V) (σ τ : Store V)
      → Effect (step call a σ).1 τ × All (Over τ) (step call a σ).0
      → Effect σ τ × Over τ a
  step-Over a σ τ (r, h) =
      let (d, g) = All-Over (step call a σ).0 τ h in
      let (f, freed) = step-Frees call a σ τ r.frees g d in
      (
        record { stays = λ t e. r.stays t (step-Stays call a σ t e); frees = f },
        (step-Settles call a σ τ r.stays d, freed),
      )

  both :
      (a : Action V) (rest : List (Action V)) (σ ρ τ : Store V)
      → Effect σ ρ × Over ρ a
      → Effect ρ τ × All (Over τ) rest
      → Effect σ τ × All (Over τ) (a ∷ rest)
  both a rest σ ρ τ (q, h) (r, hs) = (Effect-trans σ ρ τ q r, (Over-later a ρ τ r h, hs))

  mutual
    -- A call that ends is over.
    pub Ends-Over : {a : Action V} {σ τ : Store V} → Ends call a σ τ → Effect σ τ × Over τ a
    Ends-Over (ends a σ τ runs) = step-Over a σ τ (Runs-Over runs)

    pub Runs-Over :
        {asked : List (Action V)} {σ τ : Store V}
        → Runs call asked σ τ
        → Effect σ τ × All (Over τ) asked
    Runs-Over (done σ) = (Effect-refl σ, tt)
    Runs-Over (next a rest σ ρ τ e runs) = both a rest σ ρ τ (Ends-Over e) (Runs-Over runs)
