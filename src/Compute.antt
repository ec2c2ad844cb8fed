-- ===== src/Compute.antt =====
-- include/azul/compute/clcpp: OpenCL kernels compiled as C++.
pub mod GlobalId
pub mod Executor
pub mod WaitFor
pub mod Vectors
