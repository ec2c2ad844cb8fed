-- ===== src/Compute/Executor/Tests.antt =====
-- Runs of include/azul/compute/clcpp/OpenClComputeExecutor.hpp, and the theorems at concrete inputs.
use libazul.Base.{ℕ, ◌≡◌, refl, ok, List, [], ◌∷◌, arith}
use libazul.Compute.GlobalId.{GlobalIndex}
use libazul.Compute.Executor.{
  Chunk, chunks, chunks_from, work_items_per_task, execute1, execute2, execute3, task1, task2,
  task_loop, body1, body2,
}
use libazul.Compute.Executor.Chunks.{chunks_lem, gather, Within}
use libazul.Compute.Executor.Calls.{observe, dims2, dims3, execute3_lem}

-- The indices that an earlier task left on a thread.
abbrev stale : ℕ → GlobalIndex
stale k = record { dim0 = 7; dim1 = k; dim2 = 9 }

chunks_7_3 :
    chunks 7 3
    ≡ ok (
        record { start = 0; count = 2 }
        ∷ record { start = 2; count = 2 }
        ∷ record { start = 4; count = 2 }
        ∷ record { start = 6; count = 1 }
        ∷ [])
unfolding chunks chunks_from work_items_per_task
chunks_7_3 = refl

execute2_runs :
    observe dims2 stale (execute2 2 3 2 10 20)
    ≡ ok ((10, 20) ∷ (11, 20) ∷ (12, 20) ∷ (10, 21) ∷ (11, 21) ∷ (12, 21) ∷ [])
unfolding execute2 chunks chunks_from work_items_per_task task2 task_loop body2
execute2_runs = refl

execute1-stale : observe dims2 stale (execute1 1 2 5) ≡ ok ((5, 0) ∷ (6, 0) ∷ [])
unfolding execute1 chunks chunks_from work_items_per_task task1 task_loop body1
execute1-stale = refl

chunks_lem_example :
    (cs : List Chunk) × (chunks 7 3 ≡ ok cs)
    × (gather (λ j. j) cs ≡ 0 ∷ 1 ∷ 2 ∷ 3 ∷ 4 ∷ 5 ∷ 6 ∷ [])
    × Within 7 2 cs
chunks_lem_example = chunks_lem (λ j. j) 7 3 (omega arith) (omega arith)

execute3_lem_example :
    observe dims3 stale (execute3 2 2 1 2 0 0 5)
    ≡ ok ((0, 0, 5) ∷ (1, 0, 5) ∷ (0, 0, 6) ∷ (1, 0, 6) ∷ [])
execute3_lem_example =
    execute3_lem 2 2 1 2 0 0 5 stale (omega arith) (omega arith) (omega arith) (omega arith)
      (omega arith) (omega arith)
