-- ===== src/Ipc/Queue/Inv.antt =====
-- src/ipc/Queue.hpp: the representation invariant of a queue.
use native.Mathlib.Nat.{mod-lt, mod-add-mod, zero-mod}
use libazul.Base.{
  Bool, false, ℕ, ◌+◌, ◌-◌, ◌*◌, ◌/◌, ◌%◌, ◌≤◌, ◌<◌, ◌≡◌, true, ok, throw, ltb, if◌then◌else◌,
  update, mod32, add32, sub32, sym, refl, ◌∙◌, arith,
}
use libazul.Ipc.Queue.Ring.{
  wrap_add, wrap_sub, wrap_sub', step_back, block_fits, three-div-le, div_pos,
}
use libazul.Ipc.Queue.{
  Queue, Memory, construct, position, last_position, back, pop, pop_back, push_back,
  no_item_available, no_space_available, no_item_available,
}

-- The positions lie in the storage, `count` items lie from the one to the other, and no sum of
-- three of the numbers wraps.
pub record IsValid {A : Type 0} (q : Queue A) : Type 0 where
  pub read_in : q.read_position < q.size
  pub write_in : q.write_position < q.size
  pub count_in : q.count ≤ q.size
  pub write_at : q.write_position ≡ (q.read_position + q.count) % q.size
  pub small : 3 * q.size ≤ mod32

-- The index that follows `x` on the ring, in the code's 32-bit arithmetic and without it.
next_lem : (x s : ℕ) → x < s → 3 * s ≤ mod32 → add32 (add32 x 1) s % s ≡ (x + 1) % s
next_lem x s h b = wrap_add x 1 s h (omega arith) b

module _ {A : Type 0} where
  -- The index of the `i`-th item.
  pub position_lem :
      {q : Queue A} (i : ℕ)
      → IsValid q
      → i < q.count
      → position q i ≡ (q.read_position + i) % q.size
  unfolding position
  position_lem {q} i v h = wrap_add q.read_position i q.size v.read_in (omega arith) v.small

  -- `Back` reads the last item.
  pub last_position_lem :
      {q : Queue A}
      → IsValid q
      → 0 < q.count
      → last_position q ≡ (q.read_position + (q.count - 1)) % q.size
  unfolding last_position
  last_position_lem {q} v h =
      wrap_sub' q.write_position q.size v.write_in v.small
      ∙ rw v.write_at (step_back q.read_position q.count q.size v.read_in h v.count_in)

  -- With room in the storage, and items of three bytes or more, a fresh queue is valid and empty.
  pub construct-IsValid :
      (m : Memory A) (bytes item_size : ℕ)
      → 3 ≤ item_size
      → 12 + item_size ≤ bytes
      → bytes < mod32
      → IsValid (construct m bytes item_size true) × ((construct m bytes item_size true).count ≡ 0)
  unfolding construct
  construct-IsValid m bytes item_size h k b =
      let size : sub32 bytes 12 ≡ bytes - 12 = omega arith in
      let pos : 0 < (bytes - 12) / item_size =
        div_pos (bytes - 12) item_size (omega arith) (omega arith) in
      let small : 3 * ((bytes - 12) / item_size) ≤ bytes - 12 =
        three-div-le (bytes - 12) item_size h in
      rw size (
        record {
          read_in = pos;
          write_in = pos;
          count_in = omega arith;
          write_at = sym (zero-mod _);
          small = omega arith;
        },
        refl,
      )

  -- The results of the operations, in plain arithmetic.
  abbrev pub popped : Queue A → Queue A
  popped q = record q { read_position = (q.read_position + 1) % q.size; count = q.count - 1 }

  abbrev pub popped_back : Queue A → Queue A
  popped_back q = record q {
    write_position = (q.read_position + (q.count - 1)) % q.size;
    count = q.count - 1;
  }

  abbrev pub pushed : Queue A → A → Queue A
  pushed q x = record q {
    items = update q.items q.write_position x;
    write_position = (q.read_position + (q.count + 1)) % q.size;
    count = q.count + 1;
  }

  pub pop_lem :
      {q : Queue A}
      → IsValid q
      → pop q ≡ (if ltb 0 q.count then ok (popped q) else throw no_item_available)
  unfolding pop
  pop_lem {q} v = ground (arith, next_lem q.read_position q.size v.read_in v.small)

  pub pop_back_lem :
      {q : Queue A}
      → IsValid q
      → pop_back q ≡ (if ltb 0 q.count then ok (popped_back q) else throw no_item_available)
  unfolding pop_back
  pop_back_lem {q} v = ground (
    arith,
    wrap_sub q.write_position q.size v.write_in v.small,
    step_back q.read_position q.count q.size v.read_in,
  )

  pub push_back_lem :
      {q : Queue A} (x : A)
      → IsValid q
      → push_back q x ≡ (if ltb q.count q.size then ok (pushed q x) else throw no_space_available)
  unfolding push_back
  push_back_lem {q} x v = ground (
    arith,
    next_lem q.write_position q.size v.write_in v.small,
    mod-add-mod (q.read_position + q.count) q.size 1,
  )

  pub back_lem :
      {q : Queue A}
      → IsValid q
      → 0 < q.count
      → back q ≡ ok (q.items ((q.read_position + (q.count - 1)) % q.size))
  unfolding back
  back_lem {q} v h = ground (arith, last_position_lem v h)

  pub popped-IsValid : {q : Queue A} → IsValid q → 0 < q.count → IsValid (popped q)
  popped-IsValid {q} v h = ground (
    arith,
    mod-lt (q.read_position + 1) {m = q.size},
    mod-add-mod (q.read_position + 1) q.size (q.count - 1),
  )

  pub popped_back-IsValid : {q : Queue A} → IsValid q → 0 < q.count → IsValid (popped_back q)
  popped_back-IsValid {q} v h =
      ground (arith, mod-lt (q.read_position + (q.count - 1)) {m = q.size})

  pub pushed-IsValid : {q : Queue A} (x : A) → IsValid q → q.count < q.size → IsValid (pushed q x)
  pushed-IsValid {q} x v h = ground (arith, mod-lt (q.read_position + (q.count + 1)) {m = q.size})

  -- A write of one item in place.
  pub write-IsValid : {q : Queue A} (f : ℕ → A) → IsValid q → IsValid (record q { items = f })
  write-IsValid f v = ground arith

-- Every index that an operation reads or writes lies in the storage.
pub in_bounds :
    {A : Type 0} {q : Queue A} (i : ℕ)
    → IsValid q
    → (q.read_position < q.size)
      × (q.write_position < q.size)
      × (last_position q < q.size)
      × (position q i < q.size)
unfolding last_position position
in_bounds {q} i v = (v.read_in, v.write_in, mod-lt _ (omega arith), mod-lt _ (omega arith))

item_fits :
    (bytes item_size p : ℕ)
    → 12 ≤ bytes
    → bytes < mod32
    → p < sub32 bytes 12 / item_size
    → 12 + p * item_size + item_size ≤ bytes
item_fits bytes item_size p h b lt =
    let size : sub32 bytes 12 ≡ bytes - 12 = omega arith in
    omega (arith, block_fits (bytes - 12) item_size p (rw size at lt))

-- Where the constructor was given a memory block that has room for its three words of header and a
-- size of 32 bits, the item at an index of the storage lies inside that block. (In a smaller block
-- the size that the constructor computes wraps around.)
pub item_in_block :
    {A : Type 0} (m : Memory A) (bytes item_size p : ℕ) (initialize : Bool)
    → 12 ≤ bytes
    → bytes < mod32
    → p < (construct m bytes item_size initialize).size
    → 12 + p * item_size + item_size ≤ bytes
unfolding construct
item_in_block m bytes item_size p true h b lt = item_fits bytes item_size p h b lt
item_in_block m bytes item_size p false h b lt = item_fits bytes item_size p h b lt
