-- ===== src/Ipc/Queue/Ends.antt =====
-- src/ipc/Queue.hpp: the two ends of a valid queue, as its clients use them.
use libazul.Base.{
  ℕ, ◌+◌, ◌<◌, ◌≡◌, refl, sym, ap, ◌∙◌, List, [], ◌∷◌, ◌++◌, ok, lt→ltb, length, length-slots,
  arith,
}
use libazul.Ipc.Queue.{Queue, front, pop, push_back}
use libazul.Ipc.Queue.Fifo
use libazul.Ipc.Queue.Inv.{
  IsValid, popped, pushed, pop_lem, push_back_lem, popped-IsValid, pushed-IsValid,
}
use libazul.Ipc.Queue.Refine.{contents, cell, contents-popped, contents-pushed, front_refines}

-- A valid queue that is not empty gives its first item.
pub first_item :
    (q : Queue ℕ) (t : ℕ) (ts : List ℕ)
    → IsValid q
    → contents q ≡ t ∷ ts
    → (0 < q.count)
      × (front q ≡ ok t)
      × (pop q ≡ ok (popped q))
      × IsValid (popped q)
      × (contents (popped q) ≡ ts)
      × (q.count ≡ length ts + 1)
first_item q t ts v h = (
  some_item,
  front_refines v ∙ ap Fifo.front h ∙ unfold Fifo.front in refl,
  popped_ok,
  popped-IsValid v some_item,
  rest,
  count,
)
  where
    count : q.count ≡ length ts + 1
    count = sym (length-slots (cell q) q.read_position q.count) ∙ ap length h ∙ omega arith

    some_item : 0 < q.count
    some_item = omega (arith, count)

    both : cell q q.read_position ∷ contents (popped q) ≡ t ∷ ts
    both = sym (contents-popped q some_item) ∙ h

    rest : contents (popped q) ≡ ts
    rest = cc (both)

    popped_ok : pop q ≡ ok (popped q)
    popped_ok = pop_lem v ∙ rw (lt→ltb 0 q.count some_item) refl

pub no_item : (q : Queue ℕ) → contents q ≡ [] → q.count ≡ 0
no_item q h = sym (length-slots (cell q) q.read_position q.count) ∙ ap length h

-- A valid queue with room takes an item at its end.
pub last_item :
    (q : Queue ℕ) (t : ℕ)
    → IsValid q
    → q.count < q.size
    → (push_back q t ≡ ok (pushed q t))
      × IsValid (pushed q t)
      × (contents (pushed q t) ≡ contents q ++ t ∷ [])
last_item q t v h = (
  push_back_lem t v ∙ rw (lt→ltb q.count q.size h) refl,
  pushed-IsValid t v h,
  contents-pushed q t v h,
)
