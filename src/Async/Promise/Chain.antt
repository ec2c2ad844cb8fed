-- ===== src/Async/Promise/Chain.antt =====
-- include/azul/async/Future.hpp: a future that `Then` returned is settled with its source.
use libazul.Base.{
  All, ℕ, ◌+◌, ◌≤◌, ◌<◌, ◌≡◌, subst, Bool, true, false, List, [], ◌∷◌, ◌++◌, Option, some, Result,
  ok, ◌==◌, arith, Bool-cases, inl, inr, ==_iff,
}
use libazul.Async.FutureState.{
  Exception, Callable, user, Continuation, Outcome, returns, is_undefined, make_state,
}
use libazul.Async.Future.{Store}
use libazul.Async.Future.Termination.{IsOrdered, IsLater, low}
use libazul.Async.Future.Settle.{Settled}
use libazul.Async.Promise.{future_then, promise_set_value}
use libazul.Async.Promise.Then.{then_later}
use libazul.Async.Promise.Complete.{ChainSettled}
use libazul.Async.Promise.Outcomes.{Finished, set_value_lem}

IsLater-snoc :
    (n s : ℕ) (ks : List Continuation) (k : Continuation)
    → All (IsLater n s) ks
    → IsLater (n + 1) s k
    → All (IsLater (n + 1) s) (ks ++ k ∷ [])
IsLater-snoc n s [] k h l = (l, tt)
IsLater-snoc n s (j ∷ ks) k (h, hs) l = (omega arith, IsLater-snoc n s ks k hs l)

pub IsLater-mono :
    (n s : ℕ) (ks : List Continuation) → All (IsLater n s) ks → All (IsLater (n + 1) s) ks
IsLater-mono n s [] h = tt
IsLater-mono n s (j ∷ ks) (h, hs) = (omega arith, IsLater-mono n s ks hs)

module _ {V : Type 0} (call : ℕ → Outcome V → Result Exception (Option V)) where
  last-Settled :
      (τ : Store V) (ks : List Continuation) (k : Continuation)
      → ChainSettled call (ks ++ k ∷ []) τ
      → Settled τ k.promise
  last-Settled τ [] k (h, _) = h
  last-Settled τ (j ∷ ks) k (_, hs) = last-Settled τ ks k hs

  -- What `Then` has done on a future that is not set, its hold on the store's order included.
  pub then_later-IsOrdered :
      (s : ℕ) (b : Bool) (c : Callable) (σ : Store V)
      → IsOrdered σ
      → s < low c σ.next
      → low c σ.next ≤ σ.next
      → is_undefined (σ.states s).state ≡ true
      → (τ : Store V) × (future_then call (some s) b c σ ≡ ok (some σ.next, τ))
        × IsOrdered τ
        × (τ.next ≡ σ.next + 1)
        × (τ.states s ≡ record (σ.states s) {
          continuations =
              (σ.states s).continuations
              ++ record { callable = c; promise = σ.next; source = s } ∷ [];
        })
  then_later-IsOrdered s b c σ o l m u = go (then_later call s b c σ (omega arith) u)
    where
      k : Continuation
      k = record { callable = c; promise = σ.next; source = s }

      ordered_at :
          (τ : Store V)
          → (τ.states s
              ≡ record (σ.states s) { continuations = (σ.states s).continuations ++ k ∷ [] })
          → (τ.states σ.next ≡ make_state b)
          → (τ.next ≡ σ.next + 1)
          → ((t : ℕ) → (s == t) ≡ false → (σ.next == t) ≡ false → τ.states t ≡ σ.states t)
          → (t : ℕ) → All (IsLater τ.next t) (τ.states t).continuations
      ordered_at τ kept fresh n same t = elim (Bool-cases (s == t)) [
        | inl e ↦
            let eq : s ≡ t = (==_iff s t).0 e in
            rw (← eq, kept, n)
              (IsLater-snoc σ.next s (σ.states s).continuations k (o.later s) (omega arith))
        | inr d ↦ elim (Bool-cases (σ.next == t)) [
          | inl e ↦
              let eq : σ.next ≡ t = (==_iff σ.next t).0 e in
              rw (← eq, fresh) (unfold make_state in tt)
          | inr d' ↦
              rw (same t d d', n) (IsLater-mono σ.next t (σ.states t).continuations (o.later t))
        ]
      ]

      go :
          ((τ : Store V) × (future_then call (some s) b c σ ≡ ok (some σ.next, τ))
            × (τ.states s
                ≡ record (σ.states s) { continuations = (σ.states s).continuations ++ k ∷ [] })
            × (τ.states σ.next ≡ make_state b)
            × (τ.next ≡ σ.next + 1)
            × ((t : ℕ) → (s == t) ≡ false → (σ.next == t) ≡ false → τ.states t ≡ σ.states t))
          → (τ : Store V) × (future_then call (some s) b c σ ≡ ok (some σ.next, τ))
            × IsOrdered τ
            × (τ.next ≡ σ.next + 1)
            × (τ.states s
                ≡ record (σ.states s) { continuations = (σ.states s).continuations ++ k ∷ [] })
      go (τ, e, kept, fresh, n, same) =
          (τ, e, record { later = ordered_at τ kept fresh n same }, n, kept)

  -- A future that `Then` returned is set when `SetValue` on its source returns, whatever its
  -- function did; `SetValue` does not run out of fuel, since the new store is in order.
  pub then-set_value :
      (s : ℕ) (b : Bool) (f : ℕ) (v : Option V) (σ : Store V)
      → IsOrdered σ
      → s < σ.next
      → is_undefined (σ.states s).state ≡ true
      → (σ₁ : Store V) × (σ₂ : Store V) × (future_then call (some s) b (user f) σ
          ≡ ok (some σ.next, σ₁))
        × (promise_set_value call (some s) v σ₁ ≡ ok σ₂)
        × Settled σ₂ σ.next
  then-set_value s b f v σ o l u = go (then_later-IsOrdered s b (user f) σ o l (omega arith) u)
    where
      k : Continuation
      k = record { callable = user f; promise = σ.next; source = s }

      finish :
          (σ₁ : Store V)
          → (future_then call (some s) b (user f) σ ≡ ok (some σ.next, σ₁))
          → (σ₁.states s
              ≡ record (σ.states s) { continuations = (σ.states s).continuations ++ k ∷ [] })
          → ((σ₂ : Store V) × (promise_set_value call (some s) v σ₁ ≡ ok σ₂)
              × Finished call s (returns v) σ₁ σ₂)
          → (σ₁ : Store V) × (σ₂ : Store V) × (future_then call (some s) b (user f) σ
              ≡ ok (some σ.next, σ₁))
            × (promise_set_value call (some s) v σ₁ ≡ ok σ₂)
            × Settled σ₂ σ.next
      finish σ₁ e kept (σ₂, e', done) = (
        σ₁,
        σ₂,
        e,
        e',
        last-Settled σ₂ (σ.states s).continuations k
            (subst (λ f. ChainSettled call f.continuations σ₂) kept done.chain),
      )

      go :
          ((σ₁ : Store V) × (future_then call (some s) b (user f) σ ≡ ok (some σ.next, σ₁))
            × IsOrdered σ₁
            × (σ₁.next ≡ σ.next + 1)
            × (σ₁.states s
                ≡ record (σ.states s) { continuations = (σ.states s).continuations ++ k ∷ [] }))
          → (σ₁ : Store V) × (σ₂ : Store V) × (future_then call (some s) b (user f) σ
              ≡ ok (some σ.next, σ₁))
            × (promise_set_value call (some s) v σ₁ ≡ ok σ₂)
            × Settled σ₂ σ.next
      go (σ₁, e, o₁, n, kept) = finish σ₁ e kept (set_value_lem call s v σ₁ o₁ (rw kept u))
