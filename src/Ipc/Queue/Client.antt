-- ===== src/Ipc/Queue/Client.antt =====
-- src/ipc/Queue.hpp seen by a client: any sequence of calls, with what each call returns or throws.
use libazul.Base.{
  ℕ, zero, suc, ◌+◌, ◌≡◌, refl, ap, ◌∙◌, Bool, Result, ok, throw, List, [], ◌∷◌, arith, Bool-cases,
  inl, inr,
}
use libazul.Ipc.Queue.{
  Queue, QueueError, ItemEq, pop, front, back, pop_back, push_back, contains, remove, remove_from,
  position,
}
use libazul.Ipc.Queue.Fifo
use libazul.Ipc.Queue.Inv.{
  IsValid, pop_lem, pop_back_lem, push_back_lem, popped-IsValid, popped_back-IsValid,
  pushed-IsValid, write-IsValid,
}
use libazul.Ipc.Queue.Refine.{
  contents, seen, pop_refines, front_refines, back_refines, pop_back_refines, push_back_refines,
}
use libazul.Ipc.Queue.Remove.{
  contains_refines, remove_refines, seen_flag, remove_at_lem, early_return,
}

-- The calls of a client.
pub data Op (A : Type 0) : Type 0 where
  push : A → Op A
  take : Op A
  take_back : Op A
  first : Op A
  last : Op A
  has : A → Op A
  delete : A → Op A

-- What a call returns.
pub data Answer (A : Type 0) : Type 0 where
  done : Answer A
  item : A → Answer A
  flag : Bool → Answer A

abbrev pub Reply : Type 0 → Type 0
Reply A = Result QueueError (Answer A)

-- A call that throws leaves the object as it was.
abbrev pub after {ℓ} : {A : Type 0} {S : Type ℓ} → S → Result QueueError S → S × Reply A
after s (ok s') = (s', ok done)
after s (throw x) = (s, throw x)

abbrev pub asks {ℓ κ} :
    {A : Type 0} {S : Type ℓ} {B : Type κ} → S → (B → Answer A) → Result QueueError B → S × Reply A
asks s f (ok b) = (s, ok (f b))
asks s f (throw x) = (s, throw x)

abbrev pub after_flag {ℓ} :
    {A : Type 0} {S : Type ℓ} → S → Result QueueError (S × Bool) → S × Reply A
after_flag s (ok (s', b)) = (s', ok (flag b))
after_flag s (throw x) = (s, throw x)

module _ {A : Type 0} where
  after-seen :
      (q : Queue A) (m : Result QueueError (Queue A))
      → let r = after {A = A} q m in (contents r.0, r.1) ≡ after (contents q) (seen m)
  after-seen q (ok r) = refl
  after-seen q (throw x) = refl

  asks_same :
      {B : Type 0} (q : Queue A) (f : B → Answer A) (m : Result QueueError B) → (asks q f m).0 ≡ q
  asks_same q f (ok b) = refl
  asks_same q f (throw x) = refl

  asks-seen :
      {B : Type 0} (q : Queue A) (f : B → Answer A) (m : Result QueueError B)
      → let r = asks q f m in (contents r.0, r.1) ≡ asks (contents q) f m
  asks-seen q f (ok b) = refl
  asks-seen q f (throw x) = refl

module _ {A : Type 0} (e : ItemEq A) where
  unfoldable pub step : Queue A → Op A → Queue A × Reply A
  step q (push x) = after q (push_back q x)
  step q take = after q (pop q)
  step q take_back = after q (pop_back q)
  step q first = asks q item (front q)
  step q last = asks q item (back q)
  step q (has x) = (q, ok (flag (contains e q x)))
  step q (delete x) = after_flag q (remove e q x)

  unfoldable pub run : Queue A → List (Op A) → List (Reply A)
  run q [] = []
  run q (op ∷ ops) = let (q', reply) = step q op in reply ∷ run q' ops

  -- The same calls on a list of at most `cap` items.
  pub fifo_step : ℕ → List A → Op A → List A × Reply A
  fifo_step cap xs (push x) = after xs (Fifo.push_back cap xs x)
  fifo_step cap xs take = after xs (Fifo.pop xs)
  fifo_step cap xs take_back = after xs (Fifo.pop_back xs)
  fifo_step cap xs first = asks xs item (Fifo.front xs)
  fifo_step cap xs last = asks xs item (Fifo.back xs)
  fifo_step cap xs (has x) = (xs, ok (flag (Fifo.contains e xs x)))
  fifo_step cap xs (delete x) = let (ys, b) = Fifo.remove e xs x in (ys, ok (flag b))

  pub fifo_run : ℕ → List A → List (Op A) → List (Reply A)
  fifo_run cap xs [] = []
  fifo_run cap xs (op ∷ ops) = let (ys, reply) = fifo_step cap xs op in reply ∷ fifo_run cap ys ops

  -- What a call keeps: the invariant and the capacity.
  pub record Keeps (q r : Queue A) : Type 0 where
    pub valid : IsValid r
    pub same_size : r.size ≡ q.size

  remove_from-Keeps :
      {q : Queue A} (rounds i : ℕ) (x : A)
      → IsValid q
      → i + rounds ≡ q.count
      → Keeps q (after_flag {A = A} q (remove_from e q rounds i x)).0
  unfolding remove_from
  remove_from-Keeps zero i x v h = record { valid = v; same_size = refl }
  remove_from-Keeps {q} (suc n) i x v h = elim (Bool-cases (e.beq (q.items (position q i)) x)) [
    | inl t ↦
        rw (t, remove_at_lem e i v (omega arith))
          (record {
            valid = popped_back-IsValid (write-IsValid _ v) (omega arith);
            same_size = refl;
          })
    | inr f ↦ rw f (remove_from-Keeps {q = q} n (i + 1) x v (omega arith))
  ]

  -- Every call keeps the invariant and the capacity.
  pub step-Keeps : {q : Queue A} (op : Op A) → IsValid q → Keeps q (step q op).0
  unfolding step remove
  step-Keeps {q} (push x) v = ground (arith, push_back_lem x v, pushed-IsValid x v)
  step-Keeps {q} take v = ground (arith, pop_lem v, popped-IsValid v)
  step-Keeps {q} take_back v = ground (arith, pop_back_lem v, popped_back-IsValid v)
  step-Keeps {q} first v = rw (asks_same q item (front q)) (record { valid = v; same_size = refl })
  step-Keeps {q} last v = rw (asks_same q item (back q)) (record { valid = v; same_size = refl })
  step-Keeps {q} (has x) v = record { valid = v; same_size = refl }
  step-Keeps {q} (delete x) v =
      rw (remove, early_return e q x q.count) (remove_from-Keeps q.count 0 x v (omega arith))

  after_flag-seen :
      (q : Queue A) (m : Result QueueError (Queue A × Bool))
      → let r = after_flag {A = A} q m in
        (contents r.0, r.1) ≡ after_flag (contents q) (seen_flag e m)
  after_flag-seen q (ok r) = refl
  after_flag-seen q (throw x) = refl

  -- Every call does to the queue what it does to the list of its items.
  pub step_refines :
      {q : Queue A} (op : Op A)
      → IsValid q
      → let (r, reply) = step q op in (contents r, reply) ≡ fifo_step q.size (contents q) op
  unfolding step fifo_step
  step_refines {q} (push x) v =
      after-seen q (push_back q x) ∙ ap (after (contents q)) (push_back_refines x v)
  step_refines {q} take v = after-seen q (pop q) ∙ ap (after (contents q)) (pop_refines v)
  step_refines {q} take_back v =
      after-seen q (pop_back q) ∙ ap (after (contents q)) (pop_back_refines v)
  step_refines {q} first v =
      asks-seen q item (front q) ∙ ap (asks (contents q) item) (front_refines v)
  step_refines {q} last v = asks-seen q item (back q) ∙ ap (asks (contents q) item) (back_refines v)
  step_refines {q} (has x) v = ap (λ b. (contents q, ok (flag b))) (contains_refines e x v)
  step_refines {q} (delete x) v =
      after_flag-seen q (remove e q x) ∙ ap (after_flag (contents q)) (remove_refines e x v)

  -- No sequence of calls tells a valid queue from the bounded list of its items.
  pub run_refines :
      (ops : List (Op A)) {q : Queue A} → IsValid q → run q ops ≡ fifo_run q.size (contents q) ops
  unfolding run fifo_run
  run_refines [] v = refl
  run_refines (op ∷ ops) {q} v = rw (
    run_refines ops (step-Keeps {q = q} op v).valid,
    ← step_refines op v,
    (step-Keeps {q = q} op v).same_size,
  )
