-- ===== src/Async.antt =====
-- include/azul/async: futures, promises, tasks and the thread pool.
pub mod FutureState
pub mod Future
pub mod Promise
pub mod Task
pub mod StaticThreadPool
