-- ===== src/Ipc/Queue/Remove.antt =====
-- src/ipc/Queue.hpp: the loops of `Contains` and `Remove`.
use mathlib.Core.List.{append-nil, append_assoc, Perm}
use native.Mathlib.Nat.{add-zero, add_assoc}
use libazul.Base.{
  ℕ, zero, suc, ◌+◌, ◌-◌, ◌%◌, ◌<◌, ◌≡◌, ◌==◌, refl, sym, ap, ap₂, ◌∙◌, Bool, true, false, Result,
  ok, throw, Option, none, some, List, [], ◌∷◌, ◌++◌, arith, slots, slots_ext, slots-snoc, lt→ltb,
  slots-append, update, if◌then◌else◌, Bool-cases, inl, inr,
}
use libazul.Ipc.Queue.{
  Queue, QueueError, ItemEq, contains, contains_from, remove, remove_from, remove_at, position,
}
use libazul.Ipc.Queue.Fifo
use libazul.Ipc.Queue.Inv.{
  IsValid, popped_back, pop_back_lem, position_lem, back_lem, write-IsValid,
}
use libazul.Ipc.Queue.Refine.{contents, cell, cell-update}

module _ {A : Type 0} (e : ItemEq A) where
  contains_from_refines :
      {q : Queue A} (rounds i : ℕ) (item : A)
      → IsValid q
      → i + rounds ≡ q.count
      → contains_from e q rounds i item
        ≡ Fifo.contains e (slots (cell q) (q.read_position + i) rounds) item
  unfolding contains_from Fifo.contains
  contains_from_refines zero i item v h = refl
  contains_from_refines {q} (suc n) i item v h = ground (
    arith,
    position_lem i v,
    contains_from_refines {q = q} n (i + 1) item v,
    ap (λ k. slots (cell q) k n) (add_assoc q.read_position i 1),
  )

  -- `Contains` on a valid queue searches the list of its items.
  pub contains_refines :
      {q : Queue A} (item : A) → IsValid q → contains e q item ≡ Fifo.contains e (contents q) item
  unfolding contains
  contains_refines {q} item v =
      contains_from_refines q.count 0 item v (omega arith)
      ∙ ap (λ k. Fifo.contains e (slots (cell q) k q.count) item) (add-zero q.read_position)

  -- The last item is written over the `i`-th, and the queue is cut.
  abbrev pub overwritten : Queue A → ℕ → Queue A
  overwritten q i = popped_back (record q {
    items =
        update q.items ((q.read_position + i) % q.size) (cell q (q.read_position + (q.count - 1)));
  })

  pub remove_at_lem :
      {q : Queue A} (i : ℕ) → IsValid q → i < q.count → remove_at q i ≡ ok (overwritten q i, true)
  unfolding remove_at
  remove_at_lem {q} i v h =
      rw
        (
          back_lem v (omega arith),
          position_lem i v h,
          pop_back_lem (write-IsValid written v),
          lt→ltb 0 q.count (omega arith),
        )
        refl
    where
      written : ℕ → A
      written =
          update q.items ((q.read_position + i) % q.size)
            (q.items ((q.read_position + (q.count - 1)) % q.size))

  -- What lies before the overwritten place stays.
  slots-overwritten :
      {q : Queue A} (i : ℕ)
      → IsValid q
      → i < q.count
      → slots (cell (overwritten q i)) q.read_position i ≡ slots (cell q) q.read_position i
  slots-overwritten {q} i v h =
      slots_ext (cell (overwritten q i)) (cell q) q.read_position q.read_position i
        (λ k p. cell-update q _ i k v.read_in (omega arith) (omega arith) (omega arith))

  -- Before the overwritten place, at it, and behind it.
  contents-overwritten-append :
      {q : Queue A} (i n : ℕ)
      → IsValid q
      → i + suc (suc n) ≡ q.count
      → contents (overwritten q i)
        ≡ slots (cell q) q.read_position i
          ++ cell q (q.read_position + i + 1 + n) ∷ slots (cell q) (q.read_position + i + 1) n
  contents-overwritten-append {q} i n v h =
      ap (slots g r) {y = i + suc n} (omega arith)
      ∙ slots-append g r i (suc n)
      ∙ ap₂ ◌++◌ (slots-overwritten i v (omega arith)) (ap₂ ◌∷◌ at behind)
    where
      open q use {read_position as r}

      g : ℕ → A
      g = cell (overwritten q i)

      at : g (r + i) ≡ cell q (r + i + 1 + n)
      at = ground (arith, h)

      behind : slots g (r + i + 1) n ≡ slots (cell q) (r + i + 1) n
      behind = slots_ext g (cell q) (r + i + 1) (r + i + 1) n λ k p.
          let far : r + i + 1 + k ≡ r + (i + 1 + k) = omega arith in
          rw far (cell-update q _ i (i + 1 + k) v.read_in (omega arith) (omega arith) (omega arith))

  contents-overwritten :
      {q : Queue A} (i n : ℕ)
      → IsValid q
      → i + suc n ≡ q.count
      → contents (overwritten q i)
        ≡ slots (cell q) q.read_position i
          ++ Fifo.refill (slots (cell q) (q.read_position + i + 1) n)
  contents-overwritten {q} i zero v h =
      ap (slots (cell (overwritten q i)) q.read_position) {y = i} (omega arith)
      ∙ slots-overwritten i v (omega arith)
      ∙ unfold Fifo.refill in sym (append-nil (slots (cell q) q.read_position i))
  contents-overwritten {q} i (suc n) v h =
      contents-overwritten-append i n v h
      ∙ ap (λ xs. slots (cell q) q.read_position i ++ xs)
          (sym (rw (slots-snoc (cell q) (q.read_position + i + 1) n) (Fifo.refill-snoc _ _)))

  -- What a result looks like to a client.
  abbrev pub seen_flag : Result QueueError (Queue A × Bool) → Result QueueError (List A × Bool)
  seen_flag (ok (q, b)) = ok (contents q, b)
  seen_flag (throw x) = throw x

  abbrev after : List A → List A → Option (List A) → List A × Bool
  after all seen none = (all, false)
  after all seen (some ys) = (seen ++ ys, true)

  -- A step of the loop moves one item from what is to be seen to what was seen.
  after-cons :
      (all seen : List A) (x : A) (m : Option (List A))
      → after all (seen ++ x ∷ []) m
        ≡ after all seen (elim m [ none ↦ none | some ys ↦ some (x ∷ ys) ])
  after-cons all seen x none = refl
  after-cons all seen x (some ys) = ap (λ zs. (zs, true)) (append_assoc seen (x ∷ []) ys)

  slots-seen : (f : ℕ → A) (r i : ℕ) → slots f r (i + 1) ≡ slots f r i ++ f (r + i) ∷ []
  slots-seen f r i = ap (slots f r) {y = suc i} (omega arith) ∙ slots-snoc f r i

  remove_from_refines :
      {q : Queue A} (rounds i : ℕ) (item : A)
      → IsValid q
      → i + rounds ≡ q.count
      → seen_flag (remove_from e q rounds i item)
        ≡ ok (
            after
              (contents q)
              (slots (cell q) q.read_position i)
              (Fifo.swap_remove e item (slots (cell q) (q.read_position + i) rounds)))
  unfolding remove_from Fifo.swap_remove
  remove_from_refines zero i item v h = refl
  remove_from_refines {q} (suc n) i item v h =
      rw place (elim (Bool-cases (e.beq (cell q (r + i)) item)) [
        | inl t ↦
            rw (t, remove_at_lem i v (omega arith))
              (ap (λ xs. ok (xs, true)) (contents-overwritten i n v h))
        | inr f ↦ rw f (
            remove_from_refines {q = q} n (i + 1) item v (omega arith)
            ∙ ap ok (
                ap₂ (λ xs k. after (contents q) xs (Fifo.swap_remove e item (slots (cell q) k n)))
                  (slots-seen (cell q) r i) (omega arith)
                ∙ after-cons (contents q) (slots (cell q) r i) (cell q (r + i)) _))
      ])
    where
      open q use {read_position as r}

      place : position q i ≡ (r + i) % q.size
      place = position_lem i v (omega arith)

  after-nil :
      (all : List A) (m : Option (List A))
      → after all [] m ≡ elim m [ none ↦ (all, false) | some ys ↦ (ys, true) ]
  after-nil all none = refl
  after-nil all (some ys) = refl

  -- The early return on an empty queue is what the loop does anyway.
  pub early_return :
      (q : Queue A) (item : A) (n : ℕ)
      → (if n == 0 then ok (q, false) else remove_from e q n 0 item) ≡ remove_from e q n 0 item
  unfolding remove_from
  early_return q item zero = refl
  early_return q item (suc n) = let ne : (suc n == 0) ≡ false = ground arith in rw ne refl

  -- `Remove` on a valid queue is the list operation; it never throws.
  pub remove_refines :
      {q : Queue A} (item : A)
      → IsValid q
      → seen_flag (remove e q item) ≡ ok (Fifo.remove e (contents q) item)
  unfolding remove Fifo.remove
  remove_refines {q} item v =
      ap seen_flag (early_return q item q.count)
      ∙ remove_from_refines q.count 0 item v (omega arith)
      ∙ ap ok (
          ap (λ k. after (contents q) [] (Fifo.swap_remove e item (slots (cell q) k q.count)))
            (add-zero q.read_position)
          ∙ after-nil (contents q) (Fifo.swap_remove e item (contents q)))

  -- `Remove` on a valid queue takes out one item that is equal to its argument, if there is one:
  -- the other items stay, in some order.
  pub remove-perm :
      {q r : Queue A} (item : A)
      → IsValid q
      → remove e q item ≡ ok (r, true)
      → Perm (contents q) (item ∷ contents r)
  unfolding Fifo.remove
  remove-perm {q} {r} item v h =
      Fifo.swap_remove-perm e item (contents q) (contents r)
        (ground (arith, remove_refines {q = q} item v))
