-- ===== src/Async/Promise/Begun.antt =====
-- include/azul/async/Future.hpp: how `WhenAll` begins, and the calls that come after it.
use libazul.Base.{
  All, ℕ, ◌+◌, ◌<◌, ◌≡◌, ◌≢◌, refl, subst, true, List, [], ◌∷◌, Option, Result, ok, ◌>>=◌, ◌==◌,
  ==_iff, update, Bool-cases, inl, inr, arith,
}
use libazul.Async.FutureState.{
  Exception, user, activate, notify, Callable, Continuation, Outcome, make_state,
}
use libazul.Async.Future.{
  Store, Action, set_value, set_exception, run, drop, destroy_promise, release, mem, is_empty,
}
use libazul.Async.Future.Termination.{IsOrdered}
use libazul.Async.Future.Runs.{Runs, done, next}
use libazul.Async.Future.Safe.{Clear, ClearOf, Safe}
use libazul.Async.Future.Guard.{Guard}
use libazul.Async.Promise.{CallError, perform, make_promise}
use libazul.Async.Promise.Complete.{perform_lem}
use libazul.Async.Promise.Watched.{Watched}
use libazul.Async.Promise.Kept.{>>=-ok, IsMade, MadeOf, IsMade-later, AllMade, perform-Ends}
use libazul.Async.Promise.Added.{made_ne}

-- The calls that a program can make on the promises other than `a`.
abbrev pub IsOfOthers : {V : Type 0} → ℕ → Action V → Type 0
IsOfOthers a (set_value x v) = x ≢ a
IsOfOthers a (set_exception x e) = x ≢ a
IsOfOthers a (run k) = ⊥
IsOfOthers a (drop k) = ⊥
IsOfOthers a (destroy_promise x) = x ≢ a
IsOfOthers a (release b h) = ⊥

pub of_others-Safe :
    {V : Type 0} (a p : ℕ) (calls : List (Action V))
    → All (IsOfOthers a) calls
    → All (Safe a p) calls
of_others-Safe a p [] h = tt
of_others-Safe a p (set_value x v ∷ cs) (h, hs) = (h, of_others-Safe a p cs hs)
of_others-Safe a p (set_exception x e ∷ cs) (h, hs) = (h, of_others-Safe a p cs hs)
of_others-Safe a p (run k ∷ cs) (h, hs) = absurd h
of_others-Safe a p (drop k ∷ cs) (h, hs) = absurd h
of_others-Safe a p (destroy_promise x ∷ cs) (h, hs) = (h, of_others-Safe a p cs hs)
of_others-Safe a p (release b g ∷ cs) (h, hs) = absurd h

==-refl : (n : ℕ) → (n == n) ≡ true
==-refl n = ground arith

IsMade-Clear : (a : ℕ) (ks : List Continuation) → All (IsMade a) ks → All (Clear a) ks
IsMade-Clear a [] h = tt
IsMade-Clear a (k ∷ ks) ((l, m), hs) =
    ((λ e. omega (arith, l, e), aims k.callable m), IsMade-Clear a ks hs)
  where
    aims : (c : Callable) → MadeOf a c → ClearOf a c
    aims (user f) m = tt
    aims (activate b) m = tt
    aims (notify t) m = λ e. omega (arith, m, e)

pub All-mem : {m : ℕ} (ss : List ℕ) → All (λ s. s < m) ss → (t : ℕ) → mem t ss ≡ true → t < m
All-mem [] h t i = absurd (cc)
All-mem {m} (s ∷ ss) (l, ls) t i = elim (Bool-cases (s == t)) [
  | inl e ↦ let eq : s ≡ t = (==_iff s t).0 e in omega (arith, l, eq)
  | inr n ↦ All-mem ss ls t (rw n at i)
]

module _ {V : Type 0} (call : ℕ → Outcome V → Result Exception (Option V)) where
  -- Calls on promises, one after the other.
  abbrev pub perform_all : List (Action V) → Store V → Result CallError (Store V)
  perform_all [] σ = ok σ
  perform_all (b ∷ rest) σ = do σ₁ ← perform call b σ; perform_all rest σ₁

  pub perform_all-Runs :
      (calls : List (Action V)) (σ τ : Store V) → perform_all calls σ ≡ ok τ → Runs call calls σ τ
  perform_all-Runs [] σ τ h = let same : σ ≡ τ = cc in subst (Runs call [] σ) same (done σ)
  perform_all-Runs (b ∷ rest) σ τ h =
      let (ρ, e, e') = >>=-ok (perform call b σ) (perform_all rest) τ h in
      next b rest σ ρ τ (perform-Ends call b σ ρ e) (perform_all-Runs rest ρ τ e')

  pub perform_all_total :
      (calls : List (Action V)) (σ : Store V)
      → IsOrdered σ
      → (τ : Store V) × (perform_all calls σ ≡ ok τ)
  perform_all_total [] σ o = (σ, refl)
  perform_all_total (b ∷ rest) σ o =
      let (ρ, e, p) = perform_lem call b σ o in
      let (τ, e') = perform_all_total rest ρ p.ordered in (τ, rw e e')

  -- The store in which `WhenAll` has made its promise and its activator.
  abbrev pub begun : Store V → Store V
  begun σ = record (make_promise call true σ).1 { holders = update σ.holders σ.next (σ.next ∷ []) }

  pub begun-Watched : (ss : List ℕ) (σ : Store V) → Watched σ.next ss (begun σ)
  unfolding make_promise
  begun-Watched ss σ = record {
    waits = λ h m. inl (only h (rw (==-refl σ.next) at m));
    last = λ e. let e' : is_empty (σ.next ∷ []) ≡ true = rw (==-refl σ.next) at e in absurd (cc);
  }
    where
      only : (h : ℕ) → mem h (σ.next ∷ []) ≡ true → h ≡ σ.next
      only h m = ground arith

  begun-every :
      (P : Continuation → Type 0) (σ : Store V) (t : ℕ)
      → All P (σ.states t).continuations
      → All P ((begun σ).states t).continuations
  unfolding make_promise make_state
  begun-every P σ t h = elim (Bool-cases (σ.next == t)) [ inl m ↦ rw m tt | inr n ↦ rw n h ]

  pub begun-AllMade : (σ : Store V) → AllMade σ → AllMade (begun σ)
  unfolding make_promise
  begun-AllMade σ m = record {
    made = λ t.
        begun-every (IsMade (σ.next + 1)) σ t
          (IsMade-later (σ.states t).continuations σ.next (σ.next + 1) (omega arith) (m.made t));
  }

  pub begun-Guard : (s : ℕ) (σ : Store V) → AllMade σ → Guard σ.next σ.next s (begun σ)
  unfolding make_promise make_state
  begun-Guard s σ m = record {
    open_still = ground arith;
    held = ground arith;
    clear = λ t. begun-every (Clear σ.next) σ t (IsMade-Clear σ.next _ (m.made t));
    sole = λ t o. begun-every (λ k. k.promise ≢ σ.next) σ t (made_ne σ.next _ (m.made t));
  }
