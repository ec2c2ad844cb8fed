-- ===== src/Async/Task/Total.antt =====
-- include/azul/async/Task.hpp: what is known of a task that ran, whatever its promise was like before.
use libazul.Base.{ℕ, ◌≡◌, ◌≢◌, true, refl, Option, some, Result, ok, throw, inl, inr}
use libazul.Async.FutureState.{
  Exception, future_error, future_already_set, Outcome, is_undefined, set_value_cases,
}
use libazul.Async.Future.{Store, Action, set_value, set_exception, destroy_promise}
use libazul.Async.Future.Termination.{IsOrdered}
use libazul.Async.Future.Settle.{Settled, Settles}
use libazul.Async.Future.Runs.{Ends}
use libazul.Async.Future.Safe.{Safe, open_before}
use libazul.Async.Future.Guard.{Guard, Ends-Guard}
use libazul.Async.Future.Effects.{Effect, Effect-trans, Effect-refl, Ends-Over}
use libazul.Async.Promise.{perform, promise_set_value, promise_set_exception, promise_destroy}
use libazul.Async.Promise.Complete.{perform_lem}
use libazul.Async.Promise.Kept.{perform-Ends}
use libazul.Async.Promise.Outcomes.{set_value-returns}
use libazul.Async.Task.{Task, run_task, run_in, handle}

module _ {V : Type 0} where
  -- What a call that settles `s` has done when it returns.
  pub record Ran (s : ℕ) (σ τ : Store V) : Type 0 where
    pub ordered : IsOrdered τ
    pub effect : Effect σ τ
    pub set : Settled τ s
    pub guards :
        (a p z : ℕ) → s ≢ a → is_undefined (τ.states z).state ≡ true → Guard a p z σ → Guard a p z τ

module _ {V : Type 0} (call : ℕ → Outcome V → Result Exception (Option V)) where
  pub perform-Effect :
      (b : Action V) (σ : Store V)
      → IsOrdered σ
      → (τ : Store V) × (perform call b σ ≡ ok τ) × IsOrdered τ × Ends call b σ τ
  perform-Effect b σ o =
      let (τ, e, p) = perform_lem call b σ o in (τ, e, p.ordered, perform-Ends call b σ τ e)

  pub performed-Ran :
      (b : Action V) (s : ℕ) (σ : Store V)
      → IsOrdered σ
      → ((τ : Store V) → Settles b τ → Settled τ s)
      → ((a p : ℕ) → s ≢ a → Safe a p b)
      → (τ : Store V) × (perform call b σ ≡ ok τ) × Ran s σ τ
  performed-Ran b s σ o d safe =
      let (τ, e, o', run) = perform-Effect b σ o in
      let (r, (h, _)) = Ends-Over call run in
      (
        τ,
        e,
        record {
          ordered = o';
          effect = r;
          set = d τ h;
          guards = λ a p z n u g. Ends-Guard a p z call run u g (safe a p n);
        },
      )

  set_exception-Ran :
      (s : ℕ) (x : Exception) (σ : Store V)
      → IsOrdered σ
      → (τ : Store V) × (promise_set_exception call (some s) x σ ≡ ok τ) × Ran s σ τ
  unfolding promise_set_exception
  set_exception-Ran s x σ o = performed-Ran (set_exception s x) s σ o (λ τ h. h) (λ a p n. n)

  pub destroy-Ran :
      (s : ℕ) (σ : Store V)
      → IsOrdered σ
      → (τ : Store V) × (promise_destroy call (some s) σ ≡ ok τ) × Ran s σ τ
  unfolding promise_destroy
  destroy-Ran s σ o = performed-Ran (destroy_promise s) s σ o (λ τ h. h) (λ a p n. n)

  run_in-Ran :
      (s : ℕ) (r : Result Exception (Option V)) (σ : Store V)
      → IsOrdered σ
      → (τ : Store V) × (run_in call s r σ ≡ ok τ) × Ran s σ τ
  unfolding run_in handle promise_set_value
  run_in-Ran s (throw x) σ o = set_exception-Ran s x σ o
  run_in-Ran s (ok v) σ o = elim (set_value_cases (σ.states s) v) [
    | inl (u, e) ↦
        let (τ, e', r) = performed-Ran (set_value s v) s σ o (λ τ h. h) (λ a p n. n) in
        (τ, rw (e, e') refl, r)
    | inr (inl (u, w, e)) ↦ (
      σ,
      rw (e, set_value-returns call s v σ e) refl,
      record { ordered = o; effect = Effect-refl σ; set = u; guards = λ a p z n u g. g },
    )
    | inr (inr (u, w, e)) ↦
        let (τ, e', r) = set_exception-Ran s (future_error future_already_set) σ o in
        (τ, rw e e', r)
  ]

  -- A task returns in every store that is in order, also where its promise is set already; then its
  -- future is set, and apart from that what was set stays so.
  pub run_task-Ran :
      (t : Task V) (σ : Store V)
      → IsOrdered σ
      → (τ : Store V) × (run_task call t σ ≡ ok τ) × Ran t.promise σ τ
  unfolding run_task
  run_task-Ran t σ o = run_in-Ran t.promise t.func σ o

module _ {V : Type 0} where
  pub Ran-trans : (s : ℕ) (σ ρ τ : Store V) → Ran s σ ρ → Ran s ρ τ → Ran s σ τ
  Ran-trans s σ ρ τ q r = record {
    ordered = r.ordered;
    effect = Effect-trans σ ρ τ q.effect r.effect;
    set = r.set;
    guards = λ a p z n u g. r.guards a p z n u (q.guards a p z n (open_before z ρ τ r.effect u) g);
  }
