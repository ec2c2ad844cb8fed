-- ===== src/Async/Promise/Join.antt =====
-- include/azul/async/Future.hpp: what `WhenAll` leaves: its own future, and those that there were.
use libazul.Base.{All, ℕ, ◌<◌, ◌≡◌, true, List, [], ◌∷◌, map, Option, some, Result, ok, arith}
use libazul.Async.FutureState.{Exception, activate, Outcome}
use libazul.Async.Future.{Store, release, mem}
use libazul.Async.Future.Termination.{IsOrdered}
use libazul.Async.Future.Runs.{Ends}
use libazul.Async.Future.Effects.{Ends-Over}
use libazul.Async.Promise.{make_promise, then_each, when_all}
use libazul.Async.Promise.Watched.{Watched-Effect}
use libazul.Async.Promise.Adds.{Adds, then_each-Adds, Adds-Watched}
use libazul.Async.Promise.All.{when_all-IsOrdered}
use libazul.Async.Promise.Begun.{All-mem, begun, begun-Watched}
use libazul.Async.Promise.Preserves.{
  Joined, Preserves, Preserves-trans, Effect-Preserves, begun-Preserves, Adds-Preserves,
}
use libazul.Async.Promise.Ready.{when_all_parts}

pub All-of_mem : {m : ℕ} (ss : List ℕ) → ((s : ℕ) → mem s ss ≡ true → s < m) → All (λ s. s < m) ss
All-of_mem [] h = tt
All-of_mem (s ∷ ss) h = (h s (ground arith), All-of_mem ss (λ t i. h t (ground arith)))

module _ {V : Type 0} (call : ℕ → Outcome V → Result Exception (Option V)) where
  -- The future of `WhenAll` is joined to the others, which are as they were.
  pub record Joins (ss : List ℕ) (σ τ : Store V) : Type 0 where
    pub ordered : IsOrdered τ
    pub joined : Joined σ.next ss τ
    pub preserves : Preserves σ.next σ τ

  parts-Joins :
      (ss : List ℕ) (σ ρ τ : Store V)
      → All (λ s. s < σ.next) ss
      → IsOrdered τ
      → then_each call (map some ss) (activate σ.next) (begun call σ) ≡ ok ρ
      → Ends call (release σ.next σ.next) ρ τ
      → Joins ss σ τ
  unfolding make_promise
  parts-Joins ss σ ρ τ l o e last =
      let adds : Adds call σ.next ss (begun call σ) ρ =
        then_each-Adds call σ.next ss (begun call σ) ρ (omega arith) l e in
      let (r, (_, free)) = Ends-Over call last in
      let kept : Preserves σ.next (begun call σ) ρ = Adds-Preserves call σ.next adds in
      record {
        ordered = o;
        joined = record {
          made = let n : _ = r.frees.same_next in omega (arith, n, kept.grows);
          each_made = All-mem ss l;
          watched = Watched-Effect σ.next ss ρ τ r (
              Adds-Watched call σ.next ss (All-mem ss l) (λ t i. i) adds (begun-Watched call ss σ));
          let_go = free;
        };
        preserves =
            Preserves-trans σ.next σ (begun call σ) τ (begun-Preserves call σ)
              (Preserves-trans σ.next (begun call σ) ρ τ kept (Effect-Preserves σ.next ρ τ r));
      }

  pub when_all-Joins :
      (ss : List ℕ) (σ : Store V)
      → IsOrdered σ
      → All (λ s. s < σ.next) ss
      → (τ : Store V) × (when_all call (map some ss) σ ≡ ok (some σ.next, τ)) × Joins ss σ τ
  when_all-Joins ss σ o l =
      let (τ, e, o') = when_all-IsOrdered call ss σ o l in
      let (ρ, e', last) = when_all_parts call ss σ τ e in (τ, e, parts-Joins ss σ ρ τ l o' e' last)
