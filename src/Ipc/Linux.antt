-- ===== src/Ipc/Linux.antt =====
-- src/ipc/linux: mutexes and condition variables over POSIX threads.
pub mod Pthread
pub mod Integers
pub mod RobustMutex
pub mod ConditionVariable
pub mod SharedMemory
pub mod Objects
