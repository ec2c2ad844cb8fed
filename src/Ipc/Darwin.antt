-- ===== src/Ipc/Darwin.antt =====
-- src/ipc/darwin: the mutex that several processes share, and condition variables over pipes.
pub mod System
pub mod RobustMutex
pub mod FiFo
pub mod SharedMemory
pub mod Objects
pub mod ConditionVariable
