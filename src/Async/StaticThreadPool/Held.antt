-- ===== src/Async/StaticThreadPool/Held.antt =====
-- include/azul/async/StaticThreadPool.hpp: what keeps a task from being taken, from
-- `Execute` on.
use libazul.Base.{
  All, ℕ, ◌≤◌, ◌<◌, ◌≡◌, ◌≢◌, subst, Bool, true, List, [], ◌∷◌, ◌++◌, map, Option, some, Result, ok,
  arith,
}
use libazul.Async.FutureState.{Exception, Outcome, is_undefined}
use libazul.Async.Future.{Store, Action, mem}
use libazul.Async.Future.Runs.{Ends}
use libazul.Async.Future.Effects.{Ends-Over}
use libazul.Async.Future.Safe.{open_before}
use libazul.Async.Future.Guard.{Guard, Ends-Guard}
use libazul.Async.Promise.{perform}
use libazul.Async.Promise.Kept.{perform-Ends}
use libazul.Async.Promise.Adds.{Guarded}
use libazul.Async.Promise.Begun.{IsOfOthers, of_others-Safe}
use libazul.Async.Promise.Shields.{open_earlier}
use libazul.Async.Task.{Task}
use libazul.Async.Task.Total.{Ran}
use libazul.Async.StaticThreadPool.{Pool, execute, finish_task}
use libazul.Async.StaticThreadPool.NextTask.{IsNext, next_task-IsNext}
use libazul.Async.StaticThreadPool.Threads.{System, CanDependOn, Inv, Work, takes, finishes, leaves}
use libazul.Async.StaticThreadPool.Work.{All-middle, finish_task-Ran, Work-Inv}
use libazul.Async.StaticThreadPool.Execute.{All-last, Executed}
use libazul.Async.StaticThreadPool.Reached.{calls-Inv}

module _ {V : Type 0} where
  -- A task does not set `a`, and if it is the one with the promise `p` it waits for `a`.
  abbrev pub WaitsFor : (a p : ℕ) → Task V → Type 0
  WaitsFor a p t = (t.promise ≢ a) × (t.promise ≡ p → t.dependency ≡ some a)

module _ {V : Type 0} (call : ℕ → Outcome V → Result Exception (Option V)) where
  -- What can happen from then on: threads work, others add tasks, and others call promises, but for
  -- the future `a` that a task waits for.
  pub data Later (a : ℕ) : System V → System V → Type 0 where
    now : (S : System V) → Later a S S
    then_works : (S T U : System V) → Later a S T → Work call T U → Later a S U
    then_executes :
        (S T : System V) (is_void : Bool) (func : Result Exception (Option V)) (ss : List ℕ)
        (h : Option ℕ) (q : Pool V) (τ : Store V)
        → Later a S T
        → CanDependOn T ss
        → execute call is_void func (map some ss) T.pool T.store ≡ ok (h, q, τ)
        → Later a S (record T { pool = q; store = τ })
    then_calls :
        (S T : System V) (b : Action V) (τ : Store V)
        → Later a S T
        → IsOfOthers a b
        → perform call b T.store ≡ ok τ
        → Later a S (record T { store = τ })

  -- What holds while the futures in `ss`, for which the task with the promise `p` waits by `a`, are
  -- not all set.
  pub record Held (a p : ℕ) (ss : List ℕ) (S : System V) : Type 0 where
    pub inv : Inv S
    pub a_made : a < S.store.next
    pub p_made : p < S.store.next
    pub each_made : (s : ℕ) → mem s ss ≡ true → s < a
    pub queued : All (WaitsFor a p) S.pool.tasks
    pub running : All (WaitsFor a p) S.running
    pub guarded :
        (s : ℕ)
        → mem s ss ≡ true
        → is_undefined (S.store.states s).state ≡ true
        → Guarded call a s S.store

  -- A step that keeps each guard keeps the closures.
  Guarded-step :
      (a s : ℕ) (σ τ : Store V)
      → σ.next ≤ τ.next
      → is_undefined (σ.states s).state ≡ true
      → ((p : ℕ) → a ≢ p → p < σ.next → Guard a p s σ → Guard a p s τ)
      → Guarded call a s σ
      → Guarded call a s τ
  Guarded-step a s σ τ l u f (p, n, b, g) = (p, n, omega arith, f p n b g)

  pub Held-Work :
      (a p : ℕ) (ss : List ℕ) {S T : System V} → Work call S T → Held a p ss S → Held a p ss T
  Held-Work a p ss (takes S t rest g free n) h = record {
    inv = Work-Inv call (takes S t rest g free n) h.inv;
    a_made = h.a_made;
    p_made = h.p_made;
    each_made = h.each_made;
    queued = (kept (rw n at (next_task-IsNext S.store S.pool.tasks))).1;
    running = ((kept (rw n at (next_task-IsNext S.store S.pool.tasks))).0, h.running);
    guarded = h.guarded;
  }
    where
      kept : IsNext S.store S.pool.tasks (some (t, rest)) → WaitsFor a p t × All (WaitsFor a p) rest
      kept (xs, ys, e, e', _, _) = rw e' (All-middle (WaitsFor a p) xs ys t (rw e at h.queued))
  Held-Work a p ss (finishes S t xs ys τ e f) h = go (finish_task-Ran call t S.store h.inv.ordered)
    where
      here : WaitsFor a p t × All (WaitsFor a p) (xs ++ ys)
      here = All-middle (WaitsFor a p) xs ys t (rw e at h.running)

      go :
          (ρ : Store V) × (finish_task call t S.store ≡ ok ρ) × Ran t.promise S.store ρ
          → Held a p ss (record S { running = xs ++ ys; store = τ })
      go (ρ, f', r) =
          let same : ρ ≡ τ = cc in
          let r' : Ran t.promise S.store τ = subst (λ x. Ran t.promise S.store x) same r in
          let n : τ.next ≡ S.store.next = r'.effect.frees.same_next in
          record {
            inv = Work-Inv call (finishes S t xs ys τ e f) h.inv;
            a_made = omega (arith, n, h.a_made);
            p_made = omega (arith, n, h.p_made);
            each_made = h.each_made;
            queued = h.queued;
            running = here.1;
            guarded = λ s i u.
                let u' : _ = open_before s S.store τ r'.effect u in
                Guarded-step a s S.store τ (omega (arith, n)) u'
                  (λ q m b g. r'.guards a q s (here.0).0 u g) (h.guarded s i u');
          }
  Held-Work a p ss (leaves S g free) h = let i : _ = h.inv.going_on in absurd (cc)

  pub Held-calls :
      (a p : ℕ) (ss : List ℕ) (S : System V) (b : Action V) (τ : Store V)
      → IsOfOthers a b
      → perform call b S.store ≡ ok τ
      → Held a p ss S
      → Held a p ss (record S { store = τ })
  Held-calls a p ss S b τ o e h =
      let run : Ends call b S.store τ = perform-Ends call b S.store τ e in
      let (r, _) = Ends-Over call run in
      let n : τ.next ≡ S.store.next = r.frees.same_next in
      record {
        inv = calls-Inv call S b τ e h.inv;
        a_made = omega (arith, n, h.a_made);
        p_made = omega (arith, n, h.p_made);
        each_made = h.each_made;
        queued = h.queued;
        running = h.running;
        guarded = λ s i u.
            let u' : _ = open_before s S.store τ r u in
            Guarded-step a s S.store τ (omega (arith, n)) u'
              (λ q m c g. Ends-Guard a q s call run u g (of_others-Safe a q (b ∷ []) (o, tt)).0)
              (h.guarded s i u');
      }

  pub Held-Executed :
      (a p : ℕ) (ss : List ℕ) (S : System V) (b : Bool) (func : Result Exception (Option V))
      (deps : List ℕ) (x : Executed call b func deps S)
      → Held a p ss S
      → Held a p ss (record S { pool = x.pool; store = x.store })
  Held-Executed a p ss S b func deps x h =
      let grows : S.store.next ≤ x.store.next = x.preserves.grows in
      record {
        inv = x.inv;
        a_made = omega (arith, grows, h.a_made);
        p_made = omega (arith, grows, h.p_made);
        each_made = h.each_made;
        queued = rw x.longer (
            All-last (WaitsFor a p) S.pool.tasks
              (record { dependency = some S.store.next; promise = x.promise; func = func }) h.queued
              (
                (λ e. omega (arith, e, x.above, h.a_made)),
                (λ e. absurd (omega (arith, e, x.above, h.p_made))),
              ));
        running = h.running;
        guarded = λ s i u.
            let lt : s < S.store.next = omega (arith, h.each_made s i, h.a_made) in
            let u' : _ = open_earlier S.store.next s S.store x.store x.preserves lt u in
            Guarded-step a s S.store x.store grows u' (λ q m c g. x.shields a q s h.a_made c lt u g)
              (h.guarded s i u');
      }
