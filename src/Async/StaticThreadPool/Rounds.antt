-- ===== src/Async/StaticThreadPool/Rounds.antt =====
-- include/azul/async/StaticThreadPool.hpp: the loop of one thread is made of the steps of threads.
use libazul.Base.{
  if◌then◌else◌, ℕ, ◌≡◌, refl, subst, ap, ◌∙◌, true, false, List, [], ◌∷◌, Option, some, none,
  Result, ok, ◌>>=◌, Bool, arith,
}
use libazul.Async.FutureState.{Exception, Outcome}
use libazul.Async.Future.{Store}
use libazul.Async.Promise.{CallError}
use libazul.Async.Promise.Kept.{>>=-ok}
use libazul.Async.Task.{Task}
use libazul.Async.StaticThreadPool.{Pool, next_task, thread_round, after_next, finish_task}
use libazul.Async.StaticThreadPool.Threads.{
  System, Work, takes, finishes, Works, none_yet, one_more,
}

module _ {V : Type 0} (call : ℕ → Outcome V → Result Exception (Option V)) where
  returned : Pool V × Store V → Result CallError (Bool × Pool V × Store V)
  returned (q, τ) = ok (true, q, τ)

  abbrev pub alone : Pool V → Store V → System V
  alone p σ = record { pool = p; threads = 1; running = []; store = σ }

  taken-Works :
      (p : Pool V) (σ : Store V) (r : Option (Task V × List (Task V))) (q : Pool V) (τ : Store V)
      → p.shutdown_initiated ≡ false
      → next_task σ p.tasks ≡ r
      → after_next call p σ r ≡ ok (q, τ)
      → (n : ℕ) × Works call n (alone p σ) (alone q τ)
  unfolding after_next
  taken-Works p σ none q τ g e h =
      let same : p ≡ q = cc in
      let same' : σ ≡ τ = cc in
      (
        0,
        subst (λ x. Works call 0 (alone p σ) (alone x τ)) same
            (subst (λ x. Works call 0 (alone p σ) (alone p x)) same' (none_yet (alone p σ))),
      )
  taken-Works p σ (some (t, rest)) q τ g e h = go (>>=-ok (finish_task call t σ) tail (q, τ) h)
    where
      tail : Store V → Result CallError (Pool V × Store V)
      tail ρ = ok (record p { tasks = rest }, ρ)

      left : System V
      left = record { pool = record p { tasks = rest }; threads = 1; running = t ∷ []; store = σ }

      go :
          (ρ : Store V) × (finish_task call t σ ≡ ok ρ) × (tail ρ ≡ ok (q, τ))
          → (n : ℕ) × Works call n (alone p σ) (alone q τ)
      go (ρ, f, k) =
          let same : record p { tasks = rest } ≡ q = cc in
          let same' : ρ ≡ τ = cc in
          (
            2,
            one_more 1 (alone p σ) left (alone q τ) (takes (alone p σ) t rest g (omega arith) e) (
                one_more 0 left (alone q τ) (alone q τ)
                  (subst (λ x. Work call left (alone x τ)) same
                    (finishes left t [] [] τ refl (f ∙ ap ok same')))
                  (none_yet (alone q τ))),
          )

  -- A round of a thread that is alone is made of those steps.
  pub round-Works :
      (p q : Pool V) (σ τ : Store V)
      → thread_round call p σ ≡ ok (true, q, τ)
      → (n : ℕ) × Works call n (alone p σ) (alone q τ)
  unfolding thread_round returned
  round-Works p q σ τ h = by_flag p.shutdown_initiated refl h
    where
      stops : Result CallError (Bool × Pool V × Store V)
      stops = ok (false, p, σ)

      by_flag :
          (b : Bool)
          → p.shutdown_initiated ≡ b
          → (if b then stops else (after_next call p σ (next_task σ p.tasks) >>= returned))
            ≡ ok (true, q, τ)
          → (n : ℕ) × Works call n (alone p σ) (alone q τ)
      by_flag true e h = absurd (cc)
      by_flag false e h =
          let ((q', τ'), a, b) =
            >>=-ok (after_next call p σ (next_task σ p.tasks)) returned (true, q, τ) h in
          let same : q' ≡ q = cc in
          let same' : τ' ≡ τ = cc in
          taken-Works p σ (next_task σ p.tasks) q τ e refl (rw (← same, ← same') a)
