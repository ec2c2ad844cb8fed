-- ===== src/Async/StaticThreadPool/Execute.antt =====
-- include/azul/async/StaticThreadPool.hpp: `Execute` keeps the tasks of a pool in order.
use libazul.Base.{
  All, ℕ, ◌≤◌, ◌<◌, ◌≡◌, refl, ◌⊎◌, Bool, true, List, [], ◌∷◌, ◌++◌, map, Option, some, Result, ok,
  ◌==◌, Bool-cases, inl, inr, arith,
}
use libazul.Async.FutureState.{Exception, Outcome, is_undefined, user}
use libazul.Async.Future.{Store, mem}
use libazul.Async.Future.Settle.{Settled}
use libazul.Async.Promise.{make_promise, when_all}
use libazul.Async.Promise.All.{prepared-IsOrdered}
use libazul.Async.Promise.Join.{All-of_mem, Joins, when_all-Joins}
use libazul.Async.Promise.Adds.{Guarded}
use libazul.Async.Promise.Shields.{
  Shields, Shields-trans, open_earlier, Guards, when_all-Guards, make_promise-Shields,
  make_promise-AllMade,
}
use libazul.Async.Promise.Preserves.{Joined, Preserves, Preserves-trans, make_promise-Preserves}
use libazul.Async.Task.{Task}
use libazul.Async.StaticThreadPool.{Pool, execute}
use libazul.Async.StaticThreadPool.Waiting.{InOrder, InOrder-Preserves}
use libazul.Async.StaticThreadPool.Threads.{System, promises, CanDependOn, IsBelow, Inv}

module _ {V : Type 0} where
  -- A task is added whose sources are set, or of `es`, or of the tasks.
  InOrder-snoc :
      (n : ℕ) (τ : Store V) (es : List ℕ) (ts : List (Task V)) (a : ℕ) (ss : List ℕ) (p : ℕ)
      (func : Result Exception (Option V))
      → a < n
      → Joined a ss τ
      → ((s : ℕ)
          → mem s ss ≡ true
          → Settled τ s ⊎ ((mem s es ≡ true) ⊎ (mem s (promises ts) ≡ true)))
      → InOrder n τ es ts
      → InOrder n τ es (ts ++ record { dependency = some a; promise = p; func = func } ∷ [])
  InOrder-snoc n τ es [] a ss p func l j x h = (
    record {
      all = ss;
      made = l;
      joined = j;
      expected =
          λ s i. elim (x s i) [ inl d ↦ inl d | inr (inl m) ↦ inr m | inr (inr m) ↦ absurd (cc) ];
    },
    tt,
  )
  InOrder-snoc n τ es (t ∷ ts) a ss p func l j x (h, hs) =
      (h, InOrder-snoc n τ (t.promise ∷ es) ts a ss p func l j (λ s i. shift s (x s i)) hs)
    where
      shift :
          (s : ℕ)
          → Settled τ s ⊎ ((mem s es ≡ true) ⊎ (mem s (promises (t ∷ ts)) ≡ true))
          → Settled τ s ⊎ ((mem s (t.promise ∷ es) ≡ true) ⊎ (mem s (promises ts) ≡ true))
      shift s (inl d) = inl d
      shift s (inr (inl m)) = inr (inl (ground arith))
      shift s (inr (inr m)) = elim (Bool-cases (t.promise == s)) [
        | inl e ↦ inr (inl (ground arith))
        | inr o ↦ inr (inr (rw o at m))
      ]

pub All-last :
    {V : Type 0} (P : Task V → Type 0) (ts : List (Task V)) (t : Task V)
    → All P ts
    → P t
    → All P (ts ++ t ∷ [])
All-last P [] t h k = (k, tt)
All-last P (u ∷ ts) t (h, hs) k = (h, All-last P ts t hs k)

All-IsBelow :
    {V : Type 0} (ts : List (Task V)) (m n : ℕ) → m ≤ n → All (IsBelow m) ts → All (IsBelow n) ts
All-IsBelow [] m n l h = tt
All-IsBelow (t ∷ ts) m n l (h, hs) = (omega arith, All-IsBelow ts m n l hs)

module _ {V : Type 0} (call : ℕ → Outcome V → Result Exception (Option V)) where
  -- What `Execute` leaves: a pool with one task more at its end, whose future it returns.
  pub record Executed (b : Bool) (func : Result Exception (Option V)) (ss : List ℕ) (S : System V)
      : Type 0 where
    pub promise : ℕ
    pub pool : Pool V
    pub store : Store V
    pub runs : execute call b func (map some ss) S.pool S.store ≡ ok (some promise, pool, store)
    pub above : S.store.next < promise
    pub is_made : promise < store.next
    pub longer :
        pool.tasks
        ≡ S.pool.tasks
          ++ record { dependency = some S.store.next; promise = promise; func = func } ∷ []
    pub shields : Shields S.store.next S.store store
    pub preserves : Preserves S.store.next S.store store
    pub guarded :
        (s : ℕ)
        → mem s ss ≡ true
        → is_undefined (store.states s).state ≡ true
        → Guarded call S.store.next s store
    pub inv : Inv (record S { pool = pool; store = store })

  -- `Execute` returns, and the tasks stay in order.
  pub execute-Inv :
      (S : System V) (b : Bool) (func : Result Exception (Option V)) (ss : List ℕ)
      → Inv S
      → CanDependOn S ss
      → Executed b func ss S
  unfolding execute make_promise
  execute-Inv S b func ss i can = go (when_all-Joins call ss S.store i.ordered l)
    where
      σ : Store V
      σ = S.store

      l : All (λ s. s < S.store.next) ss
      l = All-of_mem ss (λ s m. (can s m).0)

      go :
          (ρ : Store V) × (when_all call (map some ss) σ ≡ ok (some σ.next, ρ)) × Joins call ss σ ρ
          → Executed b func ss S
      go (ρ, e, j) =
          let g : Guards call ss σ ρ = when_all-Guards call ss σ ρ l i.made e in
          let τ : Store V = (make_promise call b ρ).1 in
          let last : Preserves ρ.next ρ τ = make_promise-Preserves call b ρ.next ρ (omega arith) in
          let here : Preserves σ.next σ τ =
            Preserves-trans σ.next σ ρ τ j.preserves
              (make_promise-Preserves call b σ.next ρ j.preserves.grows) in
          record {
            promise = ρ.next;
            pool = record (S.pool) {
              tasks =
                  S.pool.tasks
                  ++ record { dependency = some σ.next; promise = ρ.next; func = func } ∷ [];
            };
            store = τ;
            runs = rw e refl;
            above = j.joined.made;
            is_made = omega arith;
            longer = refl;
            shields =
                Shields-trans σ.next σ ρ τ g.shields
                  (make_promise-Preserves call b σ.next ρ j.preserves.grows)
                  (make_promise-Shields call b σ.next ρ j.preserves.grows);
            preserves = here;
            guarded = λ s m u.
                let lt : s < σ.next = (can s m).0 in
                let z : s < ρ.next = omega (arith, lt, j.joined.made) in
                let (p, n, below, h) = g.guarded s m (open_earlier ρ.next s ρ τ last z u) in
                (
                  p,
                  n,
                  omega (arith, below),
                  make_promise-Shields call b ρ.next ρ (omega arith) σ.next p s j.joined.made below
                      z u h,
                );
            inv = record {
              going_on = i.going_on;
              ordered = prepared-IsOrdered call b (user 0) ρ j.ordered;
              made = make_promise-AllMade call b ρ g.made;
              queued_made =
                  All-last (IsBelow τ.next) S.pool.tasks
                    (record { dependency = some σ.next; promise = ρ.next; func = func })
                    (All-IsBelow S.pool.tasks σ.next τ.next here.grows i.queued_made) (omega arith);
              running_made = All-IsBelow S.running σ.next τ.next here.grows i.running_made;
              in_order =
                  InOrder-snoc τ.next τ (promises S.running) S.pool.tasks σ.next ss ρ.next func
                    (omega (arith, last.grows, j.joined.made))
                    (last.joined σ.next ss j.joined.made j.joined)
                    (λ s m. elim (can s m).1 [
                      | inl d ↦ inl (here.stays s (can s m).0 d)
                      | inr w ↦ inr w
                    ])
                    (InOrder-Preserves σ.next τ.next S.pool.tasks (promises S.running)
                      (promises S.running) σ τ here.grows here (λ s m. inr m) i.in_order);
              served = i.served;
            };
          }
