-- ===== src/Async/Promise/Kept.antt =====
-- include/azul/async/Future.hpp: the two ways of `Then` as facts about the store that it leaves.
use libazul.Base.{
  All, ℕ, ◌+◌, ◌<◌, ◌≡◌, refl, ap, ◌∙◌, ◌⊎◌, true, false, List, [], ◌∷◌, ◌++◌, Option, none, some,
  Result, ok, throw, ◌>>=◌, ◌==◌, Bool-cases, Option-cases, inl, inr, arith,
}
use libazul.Async.FutureState.{
  Exception, Callable, user, activate, notify, Continuation, FutureState, Outcome, is_undefined,
  make_state, then_locked,
}
use libazul.Async.Future.{Store, Action, run, drop, exec, put}
use libazul.Async.Future.Settle.{Settled}
use libazul.Async.Future.Runs.{Ends, Runs, done, next, exec-Ends}
use libazul.Async.Future.Effects.{Effect}
use libazul.Async.Promise.{
  CallError, fuel, or_out_of_fuel, perform, hold, make_promise, future_then, state_then,
}
use libazul.Async.Promise.Then.{update-same}

-- What `>>=` gives comes from both its parts.
pub >>=-ok :
    {A B E : Type 0} (m : Result E A) (f : A → Result E B) (y : B)
    → (m >>= f) ≡ ok y
    → (x : A) × (m ≡ ok x) × (f x ≡ ok y)
>>=-ok (ok x) f y h = (x, refl, h)
>>=-ok (throw e) f y h = absurd (cc)

abbrev pub MadeOf : ℕ → Callable → Type 0
MadeOf n (user f) = Unit
MadeOf n (activate b) = Unit
MadeOf n (notify t) = t < n

-- The closure sets states that are there already.
abbrev pub IsMade : ℕ → Continuation → Type 0
IsMade n k = (k.promise < n) × MadeOf n k.callable

MadeOf-later : (c : Callable) (m n : ℕ) → m < n → MadeOf m c → MadeOf n c
MadeOf-later (user f) m n l h = tt
MadeOf-later (activate b) m n l h = tt
MadeOf-later (notify t) m n l h = omega arith

pub IsMade-later :
    (ks : List Continuation) (m n : ℕ) → m < n → All (IsMade m) ks → All (IsMade n) ks
IsMade-later [] m n l h = tt
IsMade-later (k ∷ ks) m n l ((p, c), hs) =
    ((omega arith, MadeOf-later k.callable m n l c), IsMade-later ks m n l hs)

-- A closure that `WhenAll` adds to `s`.
abbrev pub closure : (a p s : ℕ) → Continuation
closure a p s = record { callable = activate a; promise = p; source = s }

pub All-snoc :
    (P : Continuation → Type 0) (ks : List Continuation) (k : Continuation)
    → All P ks
    → P k
    → All P (ks ++ k ∷ [])
All-snoc P [] k h p = (p, tt)
All-snoc P (j ∷ ks) k (h, hs) p = (h, All-snoc P ks k hs p)

module _ {V : Type 0} where
  pub record AllMade (σ : Store V) : Type 0 where
    pub made : (t : ℕ) → All (IsMade σ.next) (σ.states t).continuations

  pub AllMade-Effect : (σ τ : Store V) → Effect σ τ → AllMade σ → AllMade τ
  AllMade-Effect σ τ r m = record {
    made = λ t. elim (r.frees.fewer t) [
      | inl e ↦ rw (e, r.frees.same_next) (m.made t)
      | inr e ↦ rw e tt
    ];
  }

  -- What `Then` leaves when it keeps that closure.
  pub record Kept (a s : ℕ) (σ τ : Store V) : Type 0 where
    pub waiting : is_undefined (σ.states s).state ≡ true
    pub longer : τ.states s ≡ record (σ.states s) {
      continuations = (σ.states s).continuations ++ closure a σ.next s ∷ [];
    }
    pub fresh : τ.states σ.next ≡ make_state true
    pub others : (t : ℕ) → (s == t) ≡ false → (σ.next == t) ≡ false → τ.states t ≡ σ.states t
    pub holds : τ.holders a ≡ σ.next ∷ σ.holders a
    pub others_hold : (b : ℕ) → (a == b) ≡ false → τ.holders b ≡ σ.holders b
    pub grows : τ.next ≡ σ.next + 1

  -- The store in which it calls that closure instead.
  pub record Prepared (a s : ℕ) (σ τ : Store V) : Type 0 where
    pub set : Settled σ s
    pub fresh : τ.states σ.next ≡ make_state true
    pub others : (t : ℕ) → (σ.next == t) ≡ false → τ.states t ≡ σ.states t
    pub holds : τ.holders a ≡ σ.next ∷ σ.holders a
    pub others_hold : (b : ℕ) → (a == b) ≡ false → τ.holders b ≡ σ.holders b
    pub grows : τ.next ≡ σ.next + 1

module _ {V : Type 0} (call : ℕ → Outcome V → Result Exception (Option V)) where
  -- A call that was performed came to its end.
  pub perform-Ends : (b : Action V) (σ τ : Store V) → perform call b σ ≡ ok τ → Ends call b σ τ
  perform-Ends b σ τ h = elim (Option-cases (exec call (fuel call σ) b σ)) [
    | inl n ↦ let h' : or_out_of_fuel call none ≡ ok τ = rw n at h in absurd (cc)
    | inr (ρ, e) ↦
        let h' : or_out_of_fuel call (some ρ) ≡ ok τ = rw e at h in
        let eq : ρ ≡ τ = cc in exec-Ends call (fuel call σ) b σ τ (e ∙ ap some eq)
  ]

  -- `Then` with a closure of `WhenAll` keeps it, or calls and destroys it.
  abbrev pub ThenLeaves : (a s : ℕ) (σ τ : Store V) → Type 0
  ThenLeaves a s σ τ =
      Kept a s σ τ
      ⊎ ((ρ : Store V) × Prepared a s σ ρ
          × Runs call (run (closure a σ.next s) ∷ drop (closure a σ.next s) ∷ []) ρ τ)

  pub future_then-leaves :
      (a s : ℕ) (q : Option ℕ) (σ τ : Store V)
      → s < σ.next
      → future_then call (some s) true (activate a) σ ≡ ok (q, τ)
      → ThenLeaves a s σ τ
  unfolding future_then make_promise then_locked state_then
  future_then-leaves a s q σ τ l h =
      outer (>>=-ok (state_then call s k ρ (then_locked (ρ.states s) k)) returned (q, τ) h)
    where
      k : Continuation
      k = closure a σ.next s

      ρ : Store V
      ρ = hold call (activate a) σ.next (make_promise call true σ).1

      longer_by : FutureState V → FutureState V
      longer_by f = record f { continuations = f.continuations ++ k ∷ [] }

      at_s : ρ.states s ≡ σ.states s
      at_s = ground arith

      prepared : is_undefined (ρ.states s).state ≡ false → Prepared a s σ ρ
      prepared d = record {
        set = rw (← at_s) d;
        fresh = ground arith;
        others = λ t n. rw n refl;
        holds = ground arith;
        others_hold = λ b n. rw n refl;
        grows = refl;
      }

      kept :
          is_undefined (σ.states s).state ≡ true
          → put ρ s (longer_by (ρ.states s)) ≡ τ
          → Kept a s σ τ
      kept u e = rw (← e) record {
        waiting = u;
        longer = update-same call ρ.states s (longer_by (ρ.states s)) ∙ ap longer_by at_s;
        fresh = let n : (s == σ.next) ≡ false = ground arith in rw n (ground arith);
        others = λ t n m. rw (n, m) refl;
        holds = ground arith;
        others_hold = λ b n. rw n refl;
        grows = refl;
      }

      inner : state_then call s k ρ (then_locked (ρ.states s) k) ≡ ok τ → ThenLeaves a s σ τ
      inner e = elim (Bool-cases (is_undefined (ρ.states s).state)) [
        | inl u ↦
            let e' : state_then call s k ρ (longer_by (ρ.states s), false) ≡ ok τ = rw u at e in
            inl (kept (rw (← at_s) u) (cc))
        | inr d ↦
            let e' : state_then call s k ρ (ρ.states s, true) ≡ ok τ = rw d at e in
            let (ω, ran, dropped) = >>=-ok (perform call (run k) ρ) (perform call (drop k)) τ e' in
            inr (
              ρ,
              prepared d,
              next (run k) (drop k ∷ []) ρ ω τ (perform-Ends (run k) ρ ω ran)
                  (next (drop k) [] ω τ τ (perform-Ends (drop k) ω τ dropped) (done τ)),
            )
      ]

      returned : Store V → Result CallError (Option ℕ × Store V)
      returned x = ok (some σ.next, x)

      outer :
          (x : Store V) × (state_then call s k ρ (then_locked (ρ.states s) k) ≡ ok x)
            × (returned x ≡ ok (q, τ))
          → ThenLeaves a s σ τ
      outer (x, e, g) = let eq : x ≡ τ = cc in inner (e ∙ ap ok eq)
