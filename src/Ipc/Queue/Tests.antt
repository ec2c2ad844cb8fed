-- ===== src/Ipc/Queue/Tests.antt =====
-- Runs of src/ipc/Queue.hpp on a queue of three numbers, and the theorems at concrete inputs.
use libazul.Base.{
  ℕ, ◌+◌, ◌*◌, ◌≤◌, ◌≡◌, refl, true, false, ok, throw, List, [], ◌∷◌, arith, ==_iff, ◌==◌,
  if◌then◌else◌,
}
use libazul.Ipc.Queue.{
  Queue, Memory, ItemEq, construct, pop, push_back, pop_back, contains, contains_from, remove,
  remove_from, remove_at, position, back, front, last_position, no_item_available,
  no_space_available,
}
use libazul.Ipc.Queue.Inv.{IsValid, item_in_block}
use libazul.Ipc.Queue.Refine.{contents}
use libazul.Ipc.Queue.Client.{
  Op, push, take, take_back, first, last, has, delete, done, item, flag, run, fifo_run, step,
  step-Keeps, Keeps, run_refines, step_refines, fifo_step,
}

abbrev nat_eq : ItemEq ℕ
nat_eq = record { beq = λ a b. a == b; beq_iff = ==_iff }

abbrev block : Memory ℕ
block = record { words = λ i. 77; cells = λ i. 0 }

abbrev numbers : ℕ → ℕ
numbers i = if i == 0 then 9 else if i == 1 then 7 else 8

-- 8, then 9, then 7, round the end of the storage.
abbrev wrapped : Queue ℕ
wrapped = record { items = numbers; read_position = 2; write_position = 2; count = 3; size = 3 }

abbrev script : List (Op ℕ)
script =
    push 1 ∷ first ∷ last ∷ delete 8 ∷ has 8 ∷ first ∷ push 1 ∷ take ∷ take_back ∷ take ∷ take ∷ []

construct_size : (construct block 24 4 true).size ≡ 3
unfolding construct
construct_size = refl

wrapped-IsValid : IsValid wrapped
wrapped-IsValid = omega arith

run-wrapped :
    run nat_eq wrapped script
    ≡ throw no_space_available
      ∷ ok (item 8)
      ∷ ok (item 7)
      ∷ ok (flag true)
      ∷ ok (flag false)
      ∷ ok (item 7)
      ∷ ok done
      ∷ ok done
      ∷ ok done
      ∷ ok done
      ∷ throw no_item_available
      ∷ []
unfolding run step push_back pop pop_back front back last_position contains contains_from remove
    remove_from remove_at position
run-wrapped = refl

item_in_block_example : 12 + 2 * 4 + 4 ≤ 24
unfolding construct
item_in_block_example = item_in_block block 24 4 2 true (omega arith) (omega arith) (omega arith)

run_refines_example : run nat_eq wrapped script ≡ fifo_run nat_eq 3 (8 ∷ 9 ∷ 7 ∷ []) script
run_refines_example = run_refines nat_eq script wrapped-IsValid

step_refines_example :
    let (r, reply) = step nat_eq wrapped (delete 8) in
    (contents r, reply) ≡ fifo_step nat_eq 3 (8 ∷ 9 ∷ 7 ∷ []) (delete 8)
step_refines_example = step_refines nat_eq (delete 8) wrapped-IsValid

step-Keeps_example : Keeps nat_eq wrapped (step nat_eq wrapped (delete 8)).0
step-Keeps_example = step-Keeps nat_eq (delete 8) wrapped-IsValid
