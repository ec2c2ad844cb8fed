-- ===== src/Async/Promise/Ready.antt =====
-- include/azul/async/Future.hpp: when the future of `WhenAll` becomes ready.
use libazul.Base.{
  All, ℕ, ◌<◌, ◌≡◌, ◌⊎◌, if◌then◌else◌, refl, ap, subst, ◌∙◌, Bool, true, false, List, [], ◌∷◌, map,
  Option, some, Result, ok, ◌>>=◌, ◌==◌, ==_iff, Bool-cases, inl, inr, arith,
}
use libazul.Async.FutureState.{Exception, activate, Outcome, is_undefined}
use libazul.Async.Future.{Store, Action, release, mem}
use libazul.Async.Future.Termination.{IsOrdered}
use libazul.Async.Future.Settle.{Settled}
use libazul.Async.Future.Runs.{Ends, Runs}
use libazul.Async.Future.Effects.{Ends-Over, Runs-Over}
use libazul.Async.Future.Safe.{open_before}
use libazul.Async.Future.Guard.{Ends-Guard, Runs-Guard}
use libazul.Async.Promise.{CallError, perform, make_promise, then_each, when_all, future_is_ready}
use libazul.Async.Promise.Watched.{Watched, Watched-Effect, Watched-Settled}
use libazul.Async.Promise.Kept.{>>=-ok, AllMade, perform-Ends}
use libazul.Async.Promise.Adds.{Adds, then_each-Adds, Adds-Watched, Guarded, Adds-Guard_new}
use libazul.Async.Promise.All.{when_all-IsOrdered}
use libazul.Async.Promise.Begun.{
  IsOfOthers, of_others-Safe, All-mem, perform_all, perform_all-Runs, perform_all_total, begun,
  begun-Watched, begun-AllMade, begun-Guard,
}

module _ {V : Type 0} where
  -- Whether all the futures are set.
  abbrev pub all_ready : List ℕ → Store V → Bool
  all_ready [] ω = true
  all_ready (s ∷ ss) ω = if is_undefined (ω.states s).state then false else all_ready ss ω

  all_ready-cases :
      (ss : List ℕ) (ω : Store V)
      → ((all_ready ss ω ≡ true) × ((s : ℕ) → mem s ss ≡ true → Settled ω s))
        ⊎ ((all_ready ss ω ≡ false)
            × ((s : ℕ) × (mem s ss ≡ true) × (is_undefined (ω.states s).state ≡ true)))
  all_ready-cases [] ω = inl (refl, λ s i. absurd (cc))
  all_ready-cases (s ∷ ss) ω = elim (Bool-cases (is_undefined (ω.states s).state)) [
    | inl u ↦ inr (rw u refl, (s, ground arith, u))
    | inr d ↦ elim (all_ready-cases ss ω) [
      | inl (e, h) ↦ inl (
        rw (d, e) refl,
        λ t i. elim (Bool-cases (s == t)) [
          | inl m ↦
              let eq : s ≡ t = (==_iff s t).0 m in
              subst (λ x. is_undefined (ω.states x).state ≡ false) eq d
          | inr n ↦ h t (rw n at i)
        ],
      )
      | inr (e, (t, i, u)) ↦ inr (rw (d, e) refl, (t, ground arith, u))
    ]
  ]

module _ {V : Type 0} (call : ℕ → Outcome V → Result Exception (Option V)) where
  -- The parts of `WhenAll`.
  pub when_all_parts :
      (ss : List ℕ) (σ τ : Store V)
      → when_all call (map some ss) σ ≡ ok (some σ.next, τ)
      → (ρ : Store V) × (then_each call (map some ss) (activate σ.next) (begun call σ) ≡ ok ρ)
        × Ends call (release σ.next σ.next) ρ τ
  unfolding when_all make_promise
  when_all_parts ss σ τ h =
      let (ρ, e, e') =
        >>=-ok (then_each call (map some ss) (activate σ.next) (begun call σ)) released
          (some σ.next, τ) h in
      let (τ', e'', same) =
        >>=-ok (perform call (release σ.next σ.next) ρ) returned (some σ.next, τ) e' in
      let eq : τ' ≡ τ = cc in (ρ, e, perform-Ends call (release σ.next σ.next) ρ τ (e'' ∙ ap ok eq))
    where
      returned : Store V → Result CallError (Option ℕ × Store V)
      returned τ' = ok (some σ.next, τ')

      released : Store V → Result CallError (Option ℕ × Store V)
      released ρ = do τ' ← perform call (release σ.next σ.next) ρ; ok (some σ.next, τ')

  -- The two ways that the future of `WhenAll` can be, with the calls to come.
  abbrev pub ReadyWith : (a : ℕ) (ss : List ℕ) → Store V → Type 0
  ReadyWith a ss ω =
      (((s : ℕ) → mem s ss ≡ true → Settled ω s) → Settled ω a)
      × ((s : ℕ)
          → mem s ss ≡ true
          → is_undefined (ω.states s).state ≡ true
          → is_undefined (ω.states a).state ≡ true)

  -- The local variables give up their hold, and calls on other promises follow.
  released-ReadyWith :
      (a : ℕ) (ss : List ℕ) (calls : List (Action V)) (ρ τ ω : Store V)
      → Watched a ss ρ
      → ((s : ℕ) → mem s ss ≡ true → is_undefined (ρ.states s).state ≡ true → Guarded call a s ρ)
      → All (IsOfOthers a) calls
      → Ends call (release a a) ρ τ
      → Runs call calls τ ω
      → ReadyWith a ss ω
  released-ReadyWith a ss calls ρ τ ω w g c e runs =
      let (r, (_, free)) = Ends-Over call e in
      let (r', _) = Runs-Over call runs in
      (
        λ d.
            Watched-Settled a ss ω (Watched-Effect a ss τ ω r' (Watched-Effect a ss ρ τ r w))
              (r'.frees.shrinks a a free) d,
        λ s i u.
            let u' : is_undefined (τ.states s).state ≡ true = open_before s τ ω r' u in
            let (p, n, _, k) = g s i (open_before s ρ τ r u') in
            (Runs-Guard a p s call runs u (Ends-Guard a p s call e u' k n)
              (of_others-Safe a p calls c)).open_still,
      )

  -- `IsReady` says so of the future of `WhenAll`.
  is_ready-all_ready :
      (a : ℕ) (ss : List ℕ) (ω : Store V)
      → ReadyWith a ss ω
      → future_is_ready call (some a) ω ≡ ok (all_ready ss ω)
  unfolding future_is_ready
  is_ready-all_ready a ss ω (ready, not_yet) = elim (all_ready-cases ss ω) [
    | inl (e, h) ↦ let d : Settled ω a = ready h in rw (e, d) refl
    | inr (e, (s, i, u)) ↦
        let u' : is_undefined (ω.states a).state ≡ true = not_yet s i u in rw (e, u') refl
  ]

  -- After `WhenAll` on futures whose states are in order, and after any further calls on other
  -- promises, the future that it returned is ready if and only if all the futures are.
  pub when_all-is_ready :
      (ss : List ℕ) (calls : List (Action V)) (σ : Store V)
      → IsOrdered σ
      → AllMade σ
      → All (λ s. s < σ.next) ss
      → All (IsOfOthers σ.next) calls
      → (τ : Store V) × (ω : Store V) × (when_all call (map some ss) σ ≡ ok (some σ.next, τ))
        × (perform_all call calls τ ≡ ok ω)
        × (future_is_ready call (some σ.next) ω ≡ ok (all_ready ss ω))
  unfolding make_promise
  when_all-is_ready ss calls σ o m l c =
      let (τ, e, o') = when_all-IsOrdered call ss σ o l in
      let (ω, e') = perform_all_total call calls τ o' in
      (
        τ,
        ω,
        e,
        e',
        is_ready-all_ready σ.next ss ω
            (made τ ω (when_all_parts ss σ τ e) (perform_all-Runs call calls τ ω e')),
      )
    where
      made :
          (τ ω : Store V)
          → (ρ : Store V) × (then_each call (map some ss) (activate σ.next) (begun call σ) ≡ ok ρ)
            × Ends call (release σ.next σ.next) ρ τ
          → Runs call calls τ ω
          → ReadyWith σ.next ss ω
      made τ ω (ρ, e, last) runs =
          let adds : Adds call σ.next ss (begun call σ) ρ =
            then_each-Adds call σ.next ss (begun call σ) ρ (omega arith) l e in
          released-ReadyWith σ.next ss calls ρ τ ω
            (Adds-Watched call σ.next ss (All-mem ss l) (λ t i. i) adds (begun-Watched call ss σ))
            (λ s i u.
              Adds-Guard_new call σ.next s (All-mem ss l s i) adds i u (begun-AllMade call σ m)
                (begun-Guard call s σ m))
            c last runs
