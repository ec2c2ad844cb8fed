-- ===== src/Ipc.antt =====
-- src/ipc and include/azul/ipc: the parts that work across processes.
pub mod LockOrder
pub mod Objects
pub mod Queue
pub mod Linux
pub mod Windows
pub mod Darwin
