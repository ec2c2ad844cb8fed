-- ===== src/Ipc/Queue/Refine.antt =====
-- src/ipc/Queue.hpp: a valid queue behaves as the bounded list of the items that it holds.
use native.Mathlib.Nat.{mod-add-mod, mod-eq_of_lt}
use libazul.Base.{
  ℕ, suc, ◌+◌, ◌-◌, ◌%◌, ◌<◌, ◌≡◌, ◌≢◌, refl, sym, ap, ap₂, ◌∙◌, Result, ok, throw, List, [], ◌∷◌,
  ◌++◌, arith, slots, slots_ext, slots-snoc, slots_first, slots_last, lt→ltb, not-lt→ltb,
  length-slots, update, dec_lt,
}
use libazul.Ipc.Queue.{Queue, QueueError, pop, front, back, pop_back, push_back}
use libazul.Ipc.Queue.Fifo
use libazul.Ipc.Queue.Ring.{ring_ne}
use libazul.Ipc.Queue.Inv.{
  IsValid, popped, popped_back, pushed, pop_lem, pop_back_lem, push_back_lem, last_position_lem,
}

module _ {A : Type 0} where
  -- The items by their distance from the start of the storage, going round at `size`.
  abbrev pub cell : Queue A → ℕ → A
  cell q k = q.items (k % q.size)

  -- The items that the queue holds, oldest first.
  abbrev pub contents : Queue A → List A
  contents q = slots (cell q) q.read_position q.count

  -- What an operation leaves, seen as a list.
  abbrev pub seen : Result QueueError (Queue A) → Result QueueError (List A)
  seen (ok q) = ok (contents q)
  seen (throw e) = throw e

  -- A window is the same from an index that was taken round.
  slots-mod : (q : Queue A) (r n : ℕ) → slots (cell q) (r % q.size) n ≡ slots (cell q) r n
  slots-mod q r n =
      slots_ext (cell q) (cell q) (r % q.size) r n (λ k h. ap q.items (mod-add-mod r q.size k))

  -- Outside the written place the items are as they were.
  pub cell-update :
      (q : Queue A) (x : A) (i k : ℕ)
      → q.read_position < q.size
      → i < q.size
      → k < q.size
      → i ≢ k
      → cell
          (record q { items = update q.items ((q.read_position + i) % q.size) x })
          (q.read_position + k)
        ≡ cell q (q.read_position + k)
  cell-update q x i k r hi hk ne =
      ground (arith, ring_ne q.read_position i k q.size, ring_ne q.read_position k i q.size)

  pub contents-popped :
      (q : Queue A) → 0 < q.count → contents q ≡ cell q q.read_position ∷ contents (popped q)
  contents-popped q h =
      slots_first (cell q) q.read_position q.count h
      ∙ ap (λ xs. cell q q.read_position ∷ xs)
          (sym (slots-mod q (q.read_position + 1) (q.count - 1)))

  pub contents-popped_back :
      (q : Queue A)
      → 0 < q.count
      → contents q ≡ contents (popped_back q) ++ cell q (q.read_position + (q.count - 1)) ∷ []
  contents-popped_back q h = slots_last (cell q) q.read_position q.count h

  pub contents-pushed :
      (q : Queue A) (x : A)
      → IsValid q
      → q.count < q.size
      → contents (pushed q x) ≡ contents q ++ x ∷ []
  contents-pushed q x v h =
      ap (slots g q.read_position) {y = suc q.count} (omega arith)
      ∙ slots-snoc g q.read_position q.count
      ∙ ap₂ (λ xs y. xs ++ y ∷ [])
          (slots_ext g (cell q) q.read_position q.read_position q.count
            (λ k p. ground (arith, ring_ne q.read_position k q.count q.size v.read_in p h)))
          (ground arith)
    where
      g : ℕ → A
      g = cell (pushed q x)

  pub contents-empty : (q : Queue A) → q.count ≡ 0 → contents q ≡ []
  contents-empty q h = ap (slots (cell q) q.read_position) {y = 0} h

  -- `Pop` on a valid queue takes the oldest item off its list, and throws on the empty list.
  pub pop_refines : {q : Queue A} → IsValid q → seen (pop q) ≡ Fifo.pop (contents q)
  unfolding Fifo.pop
  pop_refines {q} v = elim (dec_lt 0 q.count) [
    | yes h ↦ ground (arith, pop_lem v, contents-popped q h)
    | no h ↦ ground (arith, pop_lem v, contents-empty q (omega arith))
  ]

  pub front_refines : {q : Queue A} → IsValid q → front q ≡ Fifo.front (contents q)
  unfolding front Fifo.front
  front_refines {q} v = elim (dec_lt 0 q.count) [
    | yes h ↦ ground (arith, contents-popped q h, mod-eq_of_lt v.read_in)
    | no h ↦ ground (arith, contents-empty q (omega arith))
  ]

  pub push_back_refines :
      {q : Queue A} (x : A)
      → IsValid q
      → seen (push_back q x) ≡ Fifo.push_back q.size (contents q) x
  unfolding Fifo.push_back
  push_back_refines {q} x v = ground (
    arith,
    push_back_lem x v,
    contents-pushed q x v,
    length-slots (cell q) q.read_position q.count,
  )

  pub pop_back_refines : {q : Queue A} → IsValid q → seen (pop_back q) ≡ Fifo.pop_back (contents q)
  pop_back_refines {q} v = elim (dec_lt 0 q.count) [
    | yes h ↦
        rw (pop_back_lem v, lt→ltb 0 q.count h, contents-popped_back q h)
          (sym (Fifo.pop_back-snoc (contents (popped_back q)) _))
    | no h ↦
        rw (pop_back_lem v, not-lt→ltb 0 q.count h, contents-empty q (omega arith))
          (unfold Fifo.pop_back in refl)
  ]

  pub back_refines : {q : Queue A} → IsValid q → back q ≡ Fifo.back (contents q)
  unfolding back
  back_refines {q} v = elim (dec_lt 0 q.count) [
    | yes h ↦ rw (contents-popped_back q h) (
        rw (Fifo.back-snoc (contents (popped_back q)) (cell q (q.read_position + (q.count - 1))))
          (ground (arith, last_position_lem v h)))
    | no h ↦ rw (contents-empty q (omega arith)) (unfold Fifo.back in ground arith)
  ]
