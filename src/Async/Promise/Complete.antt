-- ===== src/Async/Promise/Complete.antt =====
-- include/azul/async/Future.hpp: what the calls on a promise do, on every branch.
use libazul.Base.{
  All, ℕ, zero, suc, ◌<◌, ◌≡◌, refl, ap, subst, ◌∙◌, List, [], ◌∷◌, map, Option, some, Result, ok,
  update, arith,
}
use libazul.Async.FutureState.{Exception, Continuation, FutureState, Outcome}
use libazul.Async.Future.{
  Store, Action, set_value, set_exception, run, drop, destroy_promise, release, step, exec, run_all,
}
use libazul.Async.Future.Termination.{IsOrdered, IsLater, low_of, rank, exec_total, step-Keeps}
use libazul.Async.Future.Settle.{Settled, Settles, Stays, exec-Settles, run_all-Settles}
use libazul.Async.Future.Local.{SameBelow, floor, exec_local, run_all-Local, AtLeast}
use libazul.Async.Promise.{fuel, perform, or_out_of_fuel}

module _ {V : Type 0} (call : ℕ → Outcome V → Result Exception (Option V)) where
  -- All that is known of an action that was performed.
  pub record Performed (a : Action V) (σ τ : Store V) : Type 0 where
    pub ordered : IsOrdered τ
    pub same_next : τ.next ≡ σ.next
    pub stays : Stays σ τ
    pub settles : Settles a τ
    pub below : SameBelow (floor a) σ τ

  rank-lt-fuel : (a : Action V) (σ : Store V) → rank σ.next a < fuel call σ
  rank-lt-fuel (set_value s v) σ = omega arith
  rank-lt-fuel (set_exception s e) σ = omega arith
  rank-lt-fuel (run k) σ = omega arith
  rank-lt-fuel (drop k) σ = omega arith
  rank-lt-fuel (destroy_promise s) σ = omega arith
  rank-lt-fuel (release a h) σ = omega arith

  exec_lem :
      (a : Action V) (σ : Store V)
      → IsOrdered σ
      → (τ : Store V) × (exec call (fuel call σ) a σ ≡ some τ) × Performed a σ τ
  exec_lem a σ o = go (exec_total call (fuel call σ) a σ o (rank-lt-fuel a σ))
    where
      go :
          ((τ : Store V) × (exec call (fuel call σ) a σ ≡ some τ)
            × (IsOrdered τ × (τ.next ≡ σ.next)))
          → (τ : Store V) × (exec call (fuel call σ) a σ ≡ some τ) × Performed a σ τ
      go (τ, e, (o', n)) = (
        τ,
        e,
        record {
          ordered = o';
          same_next = n;
          stays = (exec-Settles call _ a σ τ e).0;
          settles = (exec-Settles call _ a σ τ e).1;
          below = (exec_local call _ a σ τ o e).1;
        },
      )

  -- In a store whose states are in order the fuel is enough.
  pub perform_lem :
      (a : Action V) (σ : Store V)
      → IsOrdered σ
      → (τ : Store V) × (perform call a σ ≡ ok τ) × Performed a σ τ
  perform_lem a σ o = let (τ, e, p) = exec_lem a σ o in (τ, ap (or_out_of_fuel call) e, p)

  -- The futures chained to the state by `Then` are settled.
  abbrev pub ChainSettled : List Continuation → Store V → Type 0
  ChainSettled ks τ = All (λ k. Settled τ k.promise) ks

  -- What an action that ends asked for was performed too.
  exec_stepped :
      (n : ℕ) (a : Action V) (σ τ : Store V)
      → exec call n a σ ≡ some τ
      → (m : ℕ) × (run_all (exec call m) (step call a σ).0 (step call a σ).1 ≡ some τ)
  unfolding exec
  exec_stepped zero a σ τ h = absurd (cc)
  exec_stepped (suc n) a σ τ h = (n, h)

  -- One action for each continuation of a state, such as `run` or `drop`.
  module _ (each : Continuation → Action V)
      (each-floor : (k : Continuation) → floor (each k) ≡ low_of k)
      (each-settles : (k : Continuation) (τ : Store V)
        → Settles (each k) τ
        → Settled τ k.promise) where
    each-AtLeast :
        (next s : ℕ) (ks : List Continuation)
        → All (IsLater next s) ks
        → All (AtLeast (suc s)) (map each ks)
    each-AtLeast next s [] h = tt
    each-AtLeast next s (k ∷ ks) (h, hs) = (omega (arith, each-floor k), each-AtLeast next s ks hs)

    each-ChainSettled :
        (ks : List Continuation) (τ : Store V)
        → All (λ a. Settles a τ) (map each ks)
        → ChainSettled ks τ
    each-ChainSettled [] τ h = tt
    each-ChainSettled (k ∷ ks) τ (h, hs) = (each-settles k τ h, each-ChainSettled ks τ hs)

    -- They leave the state itself alone, and settle what was chained to it.
    each_lem :
        (m s : ℕ) (ks : List Continuation) (σ τ : Store V)
        → IsOrdered σ
        → All (IsLater σ.next s) ks
        → run_all (exec call m) (map each ks) σ ≡ some τ
        → (τ.states s ≡ σ.states s) × ChainSettled ks τ
    each_lem m s ks σ τ o l h = (
      (run_all-Local call (exec call m) (suc s) (exec_local call m) (map each ks) σ τ o
            (each-AtLeast σ.next s ks l) h).1
          s (omega arith),
      each-ChainSettled ks τ
          (run_all-Settles (exec call m) (exec-Settles call m) (map each ks) σ τ h).1,
    )

  -- What holds after a call that wrote `f` into a state and then saw to its continuations.
  pub record Completed (s : ℕ) (f : FutureState V) (σ τ : Store V) : Type 0 where
    pub ordered : IsOrdered τ
    pub written : τ.states s ≡ f
    pub chain : ChainSettled (σ.states s).continuations τ
    pub stays : Stays σ τ
    pub below : SameBelow s σ τ

  pub stepped-Completed :
      (a : Action V) (each : Continuation → Action V) (s : ℕ) (f : FutureState V) (σ : Store V)
      → ((k : Continuation) → floor (each k) ≡ low_of k)
      → ((k : Continuation) (τ : Store V) → Settles (each k) τ → Settled τ k.promise)
      → floor a ≡ s
      → step call a σ
        ≡ (map each (σ.states s).continuations, record σ { states = update σ.states s f })
      → IsOrdered σ
      → (τ : Store V) × (perform call a σ ≡ ok τ) × Completed s f σ τ
  stepped-Completed a each s f σ ef es fl st o = go (exec_lem a σ o)
    where
      σ₁ : Store V
      σ₁ = record σ { states = update σ.states s f }

      o₁ : IsOrdered σ₁
      o₁ = subst (λ r. IsOrdered r.1) st (step-Keeps call a σ o).0

      same_next : σ₁.next ≡ σ.next
      same_next = refl

      put_there : σ₁.states s ≡ f
      put_there = ground arith

      finish :
          (τ : Store V)
          → (m : ℕ) × (run_all (exec call m) (step call a σ).0 (step call a σ).1 ≡ some τ)
          → (τ.states s ≡ σ₁.states s) × ChainSettled (σ.states s).continuations τ
      finish τ (m, h) =
          each_lem each ef es m s (σ.states s).continuations σ₁ τ o₁ (o.later s)
            (subst (λ r. run_all (exec call m) r.0 r.1 ≡ some τ) st h)

      go :
          ((τ : Store V) × (exec call (fuel call σ) a σ ≡ some τ) × Performed a σ τ)
          → (τ : Store V) × (perform call a σ ≡ ok τ) × Completed s f σ τ
      go (τ, e, p) = (
        τ,
        ap (or_out_of_fuel call) e,
        record {
          ordered = p.ordered;
          written = (finish τ (exec_stepped (fuel call σ) a σ τ e)).0 ∙ put_there;
          chain = (finish τ (exec_stepped (fuel call σ) a σ τ e)).1;
          stays = p.stays;
          below = subst (λ k. SameBelow k σ τ) fl p.below;
        },
      )
