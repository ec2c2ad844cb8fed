-- ===== src/Compute/Executor.antt =====
-- include/azul/compute/clcpp/OpenClComputeExecutor.hpp: a range of work items cut into tasks for a
-- thread pool. A task is the data that its closure captures; running it gives the value of
-- `global_index` at each call of the kernel, in order. Numbers are `std::size_t`.
pub mod Chunks
pub mod Grid
pub mod Calls
mod Tests
use Prim.Native.Nat.{max, min}
use libazul.Base.{
  ℕ, zero, suc, ◌+◌, ◌-◌, ◌*◌, ◌/◌, ◌%◌, ◌≡◌, Result, ok, throw, List, [], ◌∷◌, map, ltb, ◌==◌,
  if◌then◌else◌, add64, mul64,
}
use libazul.Compute.GlobalId.{GlobalIndex, set_global_id}

-- `workItems / _executor->ThreadCount()` traps on a pool with no thread. A loop whose index wraps
-- round may never end.
pub data ExecuteError : Type 0 where
  division_by_zero never_ends : ExecuteError

-- The work items that one task goes through, `start` and the next ones.
pub record Chunk : Type 0 where
  pub start : ℕ
  pub count : ℕ

-- `std::max<std::size_t>(workItems / _executor->ThreadCount(), 1ul)`
pub work_items_per_task : (work_items thread_count : ℕ) → Result ExecuteError ℕ
work_items_per_task n t = if t == 0 then throw division_by_zero else ok (max (n / t) 1)

abbrev prepend : Chunk → Result ExecuteError (List Chunk) → Result ExecuteError (List Chunk)
prepend c (ok cs) = ok (c ∷ cs)
prepend c (throw e) = throw e

-- `for (i = 0; i < workItems; i += workItemsPerTask)`, from `i` on.
pub chunks_from : (fuel work_items per_task i : ℕ) → Result ExecuteError (List Chunk)
chunks_from zero n per i = throw never_ends
chunks_from (suc fuel) n per i =
    let rest = chunks_from fuel n per (add64 i per) in
    if ltb i n then prepend (record { start = i; count = min per (n - i) }) rest else ok []

pub chunks : (work_items thread_count : ℕ) → Result ExecuteError (List Chunk)
chunks n t = elim (work_items_per_task n t) [
  | ok per ↦ chunks_from (n + 1) n per 0
  | throw e ↦ throw e
]

-- `for (j = first; j < last; ++j) { set…; kernel(); }` with `rounds` of its rounds left.
pub task_loop : (ℕ → GlobalIndex → GlobalIndex) → (rounds j : ℕ) → GlobalIndex → List GlobalIndex
task_loop body zero j g = []
task_loop body (suc rounds) j g = let g' = body j g in g' ∷ task_loop body rounds (j + 1) g'

-- The body of the one-dimensional task; its chunk starts at the offset.
pub body1 : ℕ → GlobalIndex → GlobalIndex
body1 j g = set_global_id g 0 j

pub task1 : (offset : ℕ) → Chunk → GlobalIndex → List GlobalIndex
task1 offset c =
    let first = add64 offset c.start in task_loop body1 (add64 first c.count - first) first

pub body2 : (size_x offset_x offset_y : ℕ) → ℕ → GlobalIndex → GlobalIndex
body2 sx ox oy j g = set_global_id (set_global_id g 0 (add64 ox (j % sx))) 1 (add64 oy (j / sx))

pub task2 : (size_x offset_x offset_y : ℕ) → Chunk → GlobalIndex → List GlobalIndex
task2 sx ox oy c = task_loop (body2 sx ox oy) (add64 c.start c.count - c.start) c.start

pub body3 : (size_x size_y offset_x offset_y offset_z : ℕ) → ℕ → GlobalIndex → GlobalIndex
body3 sx sy ox oy oz j g =
    let area = mul64 sx sy in
    set_global_id
      (set_global_id (set_global_id g 2 (add64 oz (j / area))) 1 (add64 oy (j % area / sx))) 0
      (add64 ox (j % sx))

pub task3 : (size_x size_y offset_x offset_y offset_z : ℕ) → Chunk → GlobalIndex → List GlobalIndex
task3 sx sy ox oy oz c = task_loop (body3 sx sy ox oy oz) (add64 c.start c.count - c.start) c.start

-- What `Execute` hands to the thread pool, in order: for each task, what it does on a thread whose
-- indices are given.
abbrev pub Tasks : Type 0
Tasks = Result ExecuteError (List (GlobalIndex → List GlobalIndex))

abbrev pub with_chunks :
    (Chunk → GlobalIndex → List GlobalIndex) → Result ExecuteError (List Chunk) → Tasks
with_chunks f (ok cs) = ok (map f cs)
with_chunks f (throw e) = throw e

pub execute1 : (thread_count size offset : ℕ) → Tasks
execute1 t n o = with_chunks (task1 o) (chunks n t)

pub execute2 : (thread_count size_x size_y offset_x offset_y : ℕ) → Tasks
execute2 t sx sy ox oy = with_chunks (task2 sx ox oy) (chunks (mul64 sx sy) t)

pub execute3 : (thread_count size_x size_y size_z offset_x offset_y offset_z : ℕ) → Tasks
execute3 t sx sy sz ox oy oz =
    with_chunks (task3 sx sy ox oy oz) (chunks (mul64 (mul64 sx sy) sz) t)
