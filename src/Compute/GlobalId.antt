-- ===== src/Compute/GlobalId.antt =====
-- include/azul/compute/clcpp/OpenCl.hpp and src/compute/clcpp/OpenCl.cpp: the thread-local indices
-- of the current work item.
use libazul.Base.{ℕ, zero, suc}

-- `thread_local std::size_t global_index[3]`, of one thread.
pub record GlobalIndex : Type 0 where
  pub dim0 : ℕ
  pub dim1 : ℕ
  pub dim2 : ℕ

-- An index past the array is not among the program's calls; here it reads 0 and writes nothing.
abbrev pub get_global_id : GlobalIndex → ℕ → ℕ
get_global_id g zero = g.dim0
get_global_id g (suc zero) = g.dim1
get_global_id g (suc (suc zero)) = g.dim2
get_global_id g (suc (suc (suc n))) = 0

abbrev pub set_global_id : GlobalIndex → ℕ → ℕ → GlobalIndex
set_global_id g zero v = record g { dim0 = v }
set_global_id g (suc zero) v = record g { dim1 = v }
set_global_id g (suc (suc zero)) v = record g { dim2 = v }
set_global_id g (suc (suc (suc n))) v = g
