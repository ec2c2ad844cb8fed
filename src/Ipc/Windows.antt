-- ===== src/Ipc/Windows.antt =====
-- src/ipc/win32: mutexes of the system, condition variables over semaphores, and shared memory.
pub mod RobustMutex
pub mod ConditionVariable
pub mod SharedMemory
