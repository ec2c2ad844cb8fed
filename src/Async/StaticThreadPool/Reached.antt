-- ===== src/Async/StaticThreadPool/Reached.antt =====
-- include/azul/async/StaticThreadPool.hpp: what holds in every state that a pool can come to.
use libazul.Base.{ℕ, ◌≡◌, refl, subst, Bool, List, map, Option, some, Result, ok, inr, arith}
use libazul.Async.FutureState.{Exception, Outcome}
use libazul.Async.Future.{Store, Action}
use libazul.Async.Future.Termination.{IsOrdered}
use libazul.Async.Future.Effects.{Ends-Over}
use libazul.Async.Promise.{perform}
use libazul.Async.Promise.Kept.{AllMade-Effect, perform-Ends}
use libazul.Async.Promise.Preserves.{Effect-Preserves}
use libazul.Async.Task.Total.{perform-Effect}
use libazul.Async.StaticThreadPool.{Pool, execute}
use libazul.Async.StaticThreadPool.Waiting.{InOrder-Preserves}
use libazul.Async.StaticThreadPool.Threads.{
  System, promises, Inv, Reached, starts, works, executes, calls,
}
use libazul.Async.StaticThreadPool.Work.{Work-Inv}
use libazul.Async.StaticThreadPool.Execute.{Executed, execute-Inv}

module _ {V : Type 0} (call : ℕ → Outcome V → Result Exception (Option V)) where
  pub calls-Inv :
      (S : System V) (b : Action V) (τ : Store V)
      → perform call b S.store ≡ ok τ
      → Inv S
      → Inv (record S { store = τ })
  calls-Inv S b τ e i =
      let (ρ, e', o, _) = perform-Effect call b S.store i.ordered in
      let same : ρ ≡ τ = cc in
      let (r, _) = Ends-Over call (perform-Ends call b S.store τ e) in
      record {
        going_on = i.going_on;
        ordered = subst IsOrdered same o;
        made = AllMade-Effect S.store τ r i.made;
        queued_made = rw r.frees.same_next i.queued_made;
        running_made = rw r.frees.same_next i.running_made;
        in_order =
            InOrder-Preserves S.store.next τ.next S.pool.tasks (promises S.running)
              (promises S.running) S.store τ (let n : _ = r.frees.same_next in omega (arith, n))
              (Effect-Preserves S.store.next S.store τ r) (λ s m. inr m) i.in_order;
        served = i.served;
      }

  pub Executed-Inv :
      (S : System V) (b : Bool) (func : Result Exception (Option V)) (ss : List ℕ) (h : Option ℕ)
      (q : Pool V) (τ : Store V)
      → execute call b func (map some ss) S.pool S.store ≡ ok (h, q, τ)
      → Executed call b func ss S
      → Inv (record S { pool = q; store = τ })
  Executed-Inv S b func ss h q τ e x =
      let r : execute call b func (map some ss) S.pool S.store
          ≡ ok (some x.promise, x.pool, x.store) =
        x.runs in
      let same : x.pool ≡ q = cc in
      let same' : x.store ≡ τ = cc in
      subst (λ y. Inv (record S { pool = y; store = τ })) same
        (subst (λ y. Inv (record S { pool = x.pool; store = y })) same' x.inv)

  -- In every state that a pool can come to, its tasks are in order.
  pub Reached-Inv : {S : System V} → Reached call S → Inv S
  Reached-Inv (starts n σ o m) = record {
    going_on = refl;
    ordered = o;
    made = m;
    queued_made = tt;
    running_made = tt;
    in_order = tt;
    served = omega arith;
  }
  Reached-Inv (works S T r w) = Work-Inv call w (Reached-Inv r)
  Reached-Inv (executes S b func ss h q τ r can e) =
      Executed-Inv S b func ss h q τ e (execute-Inv call S b func ss (Reached-Inv r) can)
  Reached-Inv (calls S b τ r e) = calls-Inv S b τ e (Reached-Inv r)
