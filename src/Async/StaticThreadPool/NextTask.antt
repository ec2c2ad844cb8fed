-- ===== src/Async/StaticThreadPool/NextTask.antt =====
-- include/azul/async/StaticThreadPool.hpp: which task a thread takes.
use libazul.Base.{
  All, ◌≡◌, refl, ap, true, false, List, [], ◌∷◌, ◌++◌, Option, none, some, Bool-cases, inl, inr,
}
use libazul.Async.Future.{Store}
use libazul.Async.Task.{Task, task_is_ready}
use libazul.Async.StaticThreadPool.{next_task, put_back}

module _ {V : Type 0} (σ : Store V) where
  abbrev pub Waits : Task V → Type 0
  Waits t = task_is_ready σ t ≡ false

  -- What `NextTask` gives: the first task that is ready, and the others in their order; nothing if
  -- all tasks wait.
  abbrev pub IsNext : List (Task V) → Option (Task V × List (Task V)) → Type 0
  IsNext ts none = All Waits ts
  IsNext ts (some (t, rest)) =
      (xs : List (Task V)) × (ys : List (Task V)) × (ts ≡ xs ++ t ∷ ys)
      × (rest ≡ xs ++ ys)
      × All Waits xs
      × (task_is_ready σ t ≡ true)

  put_back-IsNext :
      (t : Task V) (ts : List (Task V)) (r : Option (Task V × List (Task V)))
      → Waits t
      → IsNext ts r
      → IsNext (t ∷ ts) (put_back t r)
  put_back-IsNext t ts none w h = (w, h)
  put_back-IsNext t ts (some (u, rest)) w (xs, ys, e, e', h, ready) =
      (t ∷ xs, ys, ap (λ zs. t ∷ zs) e, ap (λ zs. t ∷ zs) e', (w, h), ready)

  -- `NextTask` takes out the first task whose dependency is set, if there is one.
  pub next_task-IsNext : (ts : List (Task V)) → IsNext ts (next_task σ ts)
  unfolding next_task
  next_task-IsNext [] = tt
  next_task-IsNext (t ∷ ts) = elim (Bool-cases (task_is_ready σ t)) [
    | inl ready ↦ rw ready ([], ts, refl, refl, tt, ready)
    | inr waits ↦ rw waits (put_back-IsNext t ts (next_task σ ts) waits (next_task-IsNext ts))
  ]
