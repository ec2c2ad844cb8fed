-- ===== src/Async/Promise/Preserves.antt =====
-- include/azul/async/Future.hpp: what the calls on other futures leave as it is of the future of a
-- `WhenAll`, another `WhenAll` included.
use libazul.Base.{
  append-nil, ℕ, ◌≤◌, ◌<◌, ◌≡◌, refl, subst, true, false, List, [], ◌∷◌, ◌++◌, Option, Bool, Result,
  ◌==◌, ==_iff, Bool-cases, inl, inr, arith,
}
use libazul.Async.FutureState.{Exception, Continuation, Outcome}
use libazul.Async.Future.{Store, mem}
use libazul.Async.Future.Settle.{Settled}
use libazul.Async.Future.Effects.{Effect, Runs-Over}
use libazul.Async.Promise.{make_promise}
use libazul.Async.Promise.Watched.{Watched, Watched-Effect, Waits, Closure-more}
use libazul.Async.Promise.Kept.{closure, Kept, Prepared, ThenLeaves}
use libazul.Async.Promise.Added.{Kept-state}
use libazul.Async.Promise.Adds.{Adds, nothing, one_more}
use libazul.Async.Promise.Begun.{begun}

module _ {V : Type 0} where
  -- The future `b` is that of a `WhenAll` on `ss` whose local variables are gone.
  pub record Joined (b : ℕ) (ss : List ℕ) (σ : Store V) : Type 0 where
    pub made : b < σ.next
    pub each_made : (s : ℕ) → mem s ss ≡ true → s < b
    pub watched : Watched b ss σ
    pub let_go : mem b (σ.holders b) ≡ false

  -- That stays so for the futures below `n`, and what is set of them stays set.
  pub record Preserves (n : ℕ) (σ τ : Store V) : Type 0 where
    pub grows : σ.next ≤ τ.next
    pub stays : (s : ℕ) → s < n → Settled σ s → Settled τ s
    pub joined : (b : ℕ) (ss : List ℕ) → b < n → Joined b ss σ → Joined b ss τ

  pub Preserves-refl : (n : ℕ) (σ : Store V) → Preserves n σ σ
  Preserves-refl n σ = record { grows = omega arith; stays = λ s l d. d; joined = λ b ss l h. h }

  pub Preserves-trans :
      (n : ℕ) (σ ρ τ : Store V) → Preserves n σ ρ → Preserves n ρ τ → Preserves n σ τ
  Preserves-trans n σ ρ τ q r = record {
    grows = omega (arith, q.grows, r.grows);
    stays = λ s l d. r.stays s l (q.stays s l d);
    joined = λ b ss l h. r.joined b ss l (q.joined b ss l h);
  }

  -- Calls on promises.
  pub Effect-Preserves : (n : ℕ) (σ τ : Store V) → Effect σ τ → Preserves n σ τ
  Effect-Preserves n σ τ r = record {
    grows = let e : _ = r.frees.same_next in omega (arith, e);
    stays = λ s l d. r.stays s d;
    joined = λ b ss l h. record {
      made = rw r.frees.same_next h.made;
      each_made = h.each_made;
      watched = Watched-Effect b ss σ τ r h.watched;
      let_go = r.frees.shrinks b b h.let_go;
    };
  }

  -- States that were there get closures at most, and who holds `b` does not change.
  record Extends (σ τ : Store V) : Type 0 where
    grows : σ.next ≤ τ.next
    same : (t : ℕ) → t < σ.next → (τ.states t).state ≡ (σ.states t).state
    longer :
        (t : ℕ)
        → t < σ.next
        → (more : List Continuation) × ((τ.states t).continuations
            ≡ (σ.states t).continuations ++ more)

  Extends-Waits :
      (b h s : ℕ) (σ τ : Store V) → Extends σ τ → s < σ.next → Waits b h s σ → Waits b h s τ
  Extends-Waits b h s σ τ x l (u, c) =
      let (more, e) = x.longer s l in
      (rw (x.same s l) u, rw e (Closure-more b h (σ.states s).continuations more c))

  Extends-Joined :
      (b : ℕ) (ss : List ℕ) (σ τ : Store V)
      → Extends σ τ
      → τ.holders b ≡ σ.holders b
      → Joined b ss σ
      → Joined b ss τ
  Extends-Joined b ss σ τ x e h = record {
    made = omega (arith, x.grows, h.made);
    each_made = h.each_made;
    watched = record {
      waits = λ g m. elim (h.watched.waits g (rw e at m)) [
        | inl here ↦ inl here
        | inr (s, i, w) ↦
            inr (s, i, Extends-Waits b g s σ τ x (omega (arith, h.made, h.each_made s i)) w)
      ];
      last = λ n. let d : Settled σ b = h.watched.last (rw e at n) in rw (x.same b h.made) d;
    };
    let_go = rw e h.let_go;
  }

  Extends-Preserves :
      (n : ℕ) (σ τ : Store V)
      → n ≤ σ.next
      → Extends σ τ
      → ((b : ℕ) → b < n → τ.holders b ≡ σ.holders b)
      → Preserves n σ τ
  Extends-Preserves n σ τ m x e = record {
    grows = x.grows;
    stays = λ s l d. rw (x.same s (omega (arith, l, m))) d;
    joined = λ b ss l h. Extends-Joined b ss σ τ x (e b l) h;
  }

  -- A new state is put where there was none.
  fresh-Extends :
      (σ τ : Store V)
      → σ.next ≤ τ.next
      → ((t : ℕ) → (σ.next == t) ≡ false → τ.states t ≡ σ.states t)
      → Extends σ τ
  fresh-Extends σ τ g others = record {
    grows = g;
    same = λ t l. rw (others t (ground arith)) refl;
    longer = λ t l. ([], rw (others t (ground arith), append-nil) refl);
  }

  pub make_promise-Preserves :
      (call : ℕ → Outcome V → Result Exception (Option V)) (b : Bool) (n : ℕ) (σ : Store V)
      → n ≤ σ.next
      → Preserves n σ (make_promise call b σ).1
  unfolding make_promise
  make_promise-Preserves call b n σ m =
      Extends-Preserves n σ (make_promise call b σ).1 m
        (fresh-Extends σ (make_promise call b σ).1 (omega arith) (λ t o. rw o refl)) (λ t l. refl)

  pub begun-Preserves :
      (call : ℕ → Outcome V → Result Exception (Option V)) (σ : Store V)
      → Preserves σ.next σ (begun call σ)
  unfolding make_promise
  begun-Preserves call σ =
      Extends-Preserves σ.next σ (begun call σ) (omega arith)
        (fresh-Extends σ (begun call σ) (omega arith) (λ t o. rw o refl))
        (λ t l. let o : (σ.next == t) ≡ false = ground arith in rw o refl)

  module _ (a s : ℕ) where
    Kept-Extends : (σ τ : Store V) → Kept a s σ τ → Extends σ τ
    Kept-Extends σ τ k = record {
      grows = let e : _ = k.grows in omega (arith, e);
      same = λ t l. Kept-state a s σ τ t k l;
      longer = λ t l. elim (Bool-cases (s == t)) [
        | inl m ↦
            let eq : s ≡ t = (==_iff s t).0 m in
            (
              closure a σ.next s ∷ [],
              subst
                  (λ x.
                    (τ.states x).continuations
                    ≡ (σ.states x).continuations ++ closure a σ.next s ∷ [])
                  eq (rw k.longer refl),
            )
        | inr o ↦ ([], rw (k.others t o (ground arith), append-nil) refl)
      ];
    }

    Kept-Preserves : (σ τ : Store V) → a < σ.next → Kept a s σ τ → Preserves a σ τ
    Kept-Preserves σ τ l k =
        Extends-Preserves a σ τ (omega arith) (Kept-Extends σ τ k)
          (λ b m. k.others_hold b (ground arith))

    Prepared-Preserves : (σ τ : Store V) → a < σ.next → Prepared a s σ τ → Preserves a σ τ
    Prepared-Preserves σ τ l k =
        Extends-Preserves a σ τ (omega arith)
          (fresh-Extends σ τ (let e : _ = k.grows in omega (arith, e)) k.others)
          (λ b m. k.others_hold b (ground arith))

module _ {V : Type 0} (call : ℕ → Outcome V → Result Exception (Option V)) where
  then-Preserves :
      (a s : ℕ) (σ τ : Store V) → a < σ.next → ThenLeaves call a s σ τ → Preserves a σ τ
  then-Preserves a s σ τ l (inl k) = Kept-Preserves a s σ τ l k
  then-Preserves a s σ τ l (inr (ρ, k, runs)) =
      Preserves-trans a σ ρ τ (Prepared-Preserves a s σ ρ l k)
        (Effect-Preserves a ρ τ (Runs-Over call runs).0)

  -- The closures of a `WhenAll` leave the futures of those before it.
  pub Adds-Preserves : (a : ℕ) {ss : List ℕ} {σ τ : Store V} → Adds call a ss σ τ → Preserves a σ τ
  Adds-Preserves a (nothing σ) = Preserves-refl a σ
  Adds-Preserves a (one_more s rest σ ρ τ l b leaves more) =
      Preserves-trans a σ ρ τ (then-Preserves a s σ ρ l leaves) (Adds-Preserves a more)
