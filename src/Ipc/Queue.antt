-- ===== src/Ipc/Queue.antt =====
-- src/ipc/Queue.hpp: a ring of items in shared memory, with its three header words.
-- `_items` is a pointer, so the memory behind it is a function from indices; that no access leaves
-- the storage is a theorem. The header words are numbers below 2 ^ 32, their arithmetic wraps.
pub mod Ring
pub mod Fifo
pub mod Inv
pub mod Ends
pub mod Refine
pub mod Remove
pub mod Client
mod Tests
use libazul.Base.{
  ℕ, zero, suc, ◌+◌, ◌-◌, ◌*◌, ◌/◌, ◌%◌, ◌≡◌, ◌↔◌, Bool, true, false, Result, ok, throw, ltb, ◌>>=◌,
  ◌==◌, if◌then◌else◌, add32, sub32, update,
}

-- What the operations throw.
pub data QueueError : Type 0 where
  no_item_available no_space_available : QueueError

-- `operator==` of the item type.
pub record ItemEq (A : Type 0) : Type 0 where
  pub beq : A → A → Bool
  pub beq_iff : (a b : A) → (beq a b ≡ true) ↔ (a ≡ b)

pub record Queue (A : Type 0) : Type 0 where
  pub items : ℕ → A
  pub read_position : ℕ
  pub write_position : ℕ
  pub count : ℕ
  pub size : ℕ

-- The memory block that the constructor is given: the header words and the items behind them.
pub record Memory (A : Type 0) : Type 0 where
  pub words : ℕ → ℕ
  pub cells : ℕ → A

module _ {A : Type 0} where
  -- `item_size` is `sizeof(TItem)`.
  pub construct : Memory A → (bytes item_size : ℕ) → (initialize : Bool) → Queue A
  construct m bytes item_size initialize =
      if initialize then record q { read_position = 0; write_position = 0; count = 0 } else q
    where
      q : Queue A
      q = record {
        items = m.cells;
        read_position = m.words 0;
        write_position = m.words 1;
        count = m.words 2;
        size = sub32 bytes (4 * 3) / item_size;
      }

  abbrev pub space_available : Queue A → Bool
  space_available q = ltb q.count q.size

  -- The index `(*_readPosition + i + _size) % _size` of `Contains` and `Remove`.
  pub position : Queue A → ℕ → ℕ
  position q i = add32 (add32 q.read_position i) q.size % q.size

  pub pop : Queue A → Result QueueError (Queue A)
  pop q =
      if ltb 0 q.count
      then ok (record q {
        read_position = add32 (add32 q.read_position 1) q.size % q.size;
        count = sub32 q.count 1;
      })
      else throw no_item_available

  pub front : Queue A → Result QueueError A
  front q = if ltb 0 q.count then ok (q.items q.read_position) else throw no_item_available

  pub pop_back : Queue A → Result QueueError (Queue A)
  pop_back q =
      if ltb 0 q.count
      then ok (record q {
        write_position = add32 (sub32 q.write_position 1) q.size % q.size;
        count = sub32 q.count 1;
      })
      else throw no_item_available

  -- The index that `Back` reads.
  pub last_position : Queue A → ℕ
  last_position q = sub32 (add32 q.write_position q.size) 1 % q.size

  pub back : Queue A → Result QueueError A
  unfolding last_position
  back q = if ltb 0 q.count then ok (q.items (last_position q)) else throw no_item_available

  pub push_back : Queue A → A → Result QueueError (Queue A)
  push_back q item =
      if space_available q
      then ok (record q {
        items = update q.items q.write_position item;
        write_position = add32 (add32 q.write_position 1) q.size % q.size;
        count = add32 q.count 1;
      })
      else throw no_space_available

  -- `_items[position] = Back(); PopBack(); return true;` in the loop of `Remove`.
  pub remove_at : Queue A → ℕ → Result QueueError (Queue A × Bool)
  remove_at q i = do
    last ← back q
    q' ← pop_back (record q { items = update q.items (position q i) last })
    ok (q', true)

  module _ (e : ItemEq A) where
    -- The loop of `Contains`, with `rounds` of its rounds left.
    pub contains_from : Queue A → (rounds i : ℕ) → A → Bool
    contains_from q zero i item = false
    contains_from q (suc rounds) i item =
        if e.beq (q.items (position q i)) item then true else contains_from q rounds (i + 1) item

    pub contains : Queue A → A → Bool
    contains q item = contains_from q q.count 0 item

    -- The loop of `Remove`, with `rounds` of its rounds left.
    pub remove_from : Queue A → (rounds i : ℕ) → A → Result QueueError (Queue A × Bool)
    remove_from q zero i item = ok (q, false)
    remove_from q (suc rounds) i item =
        if e.beq (q.items (position q i)) item
        then remove_at q i
        else remove_from q rounds (i + 1) item

    pub remove : Queue A → A → Result QueueError (Queue A × Bool)
    remove q item = if q.count == 0 then ok (q, false) else remove_from q q.count 0 item
