-- ===== src/Ipc/Linux/RobustMutex.antt =====
-- src/ipc/linux/RobustMutex.hpp and RobustMutex.cpp: the members of the mutex and of its facade.
pub mod Calls
pub mod Effects
pub mod Exclusion
pub mod Recovery
mod Tests
use libazul.Base.{ℕ, Bool, true, false, Option, none, some, if◌then◌else◌}
use libazul.Ipc.Linux.Pthread.{
  Code, success, edeadlk, eownerdead, ebusy, eperm, enotrecoverable, einval, etimedout, other,
  Pthread,
}

-- What the members throw.
pub data SyncError : Type 0 where
  not_initialized already_locked other_thread : SyncError
  failed : Code → SyncError

-- How a call ends, with the mutex that it leaves, if it ends.
pub data Ran (M A : Type 0) : Type 0 where
  blocks : Ran M A
  returned : A → M → Ran M A
  thrown : SyncError → M → Ran M A

module _ {M : Type 0} (p : Pthread M) where
  after_lock : Code → M → Ran M Unit
  after_lock success m = returned tt m
  after_lock edeadlk m = thrown already_locked m
  after_lock eownerdead m = returned tt (p.pthread_mutex_consistent m)
  after_lock ebusy m = thrown (failed ebusy) m
  after_lock eperm m = thrown (failed eperm) m
  after_lock enotrecoverable m = thrown (failed enotrecoverable) m
  after_lock einval m = thrown (failed einval) m
  after_lock etimedout m = thrown (failed etimedout) m
  after_lock (other n) m = thrown (failed (other n)) m

  after_pthread_mutex_lock : Option (Code × M) → Ran M Unit
  unfolding after_lock
  after_pthread_mutex_lock none = blocks
  after_pthread_mutex_lock (some (c, m)) = after_lock c m

  unfoldable pub lock : ℕ → M → Ran M Unit
  unfolding after_pthread_mutex_lock
  lock t m = after_pthread_mutex_lock (p.pthread_mutex_lock t m)

  after_try_lock : Code → M → Ran M Bool
  after_try_lock success m = returned true m
  after_try_lock edeadlk m = thrown already_locked m
  after_try_lock eownerdead m = thrown (failed eownerdead) m
  after_try_lock ebusy m = returned false m
  after_try_lock eperm m = thrown (failed eperm) m
  after_try_lock enotrecoverable m = thrown (failed enotrecoverable) m
  after_try_lock einval m = thrown (failed einval) m
  after_try_lock etimedout m = thrown (failed etimedout) m
  after_try_lock (other n) m = thrown (failed (other n)) m

  unfoldable pub try_lock : ℕ → M → Ran M Bool
  unfolding after_try_lock
  try_lock t m = let (c, m') = p.pthread_mutex_trylock t m in after_try_lock c m'

  after_unlock : Code → M → Ran M Unit
  after_unlock success m = returned tt m
  after_unlock edeadlk m = thrown (failed edeadlk) m
  after_unlock eownerdead m = thrown (failed eownerdead) m
  after_unlock ebusy m = thrown (failed ebusy) m
  after_unlock eperm m = thrown other_thread m
  after_unlock enotrecoverable m = thrown (failed enotrecoverable) m
  after_unlock einval m = thrown (failed einval) m
  after_unlock etimedout m = thrown (failed etimedout) m
  after_unlock (other n) m = thrown (failed (other n)) m

  unfoldable pub unlock : ℕ → M → Ran M Unit
  unfolding after_unlock
  unlock t m = let (c, m') = p.pthread_mutex_unlock t m in after_unlock c m'

  -- The members of the facade; `initialized` tells whether `_impl` is set.
  unfoldable pub facade_lock : (initialized : Bool) → ℕ → M → Ran M Unit
  facade_lock initialized t m = if initialized then lock t m else thrown not_initialized m

  unfoldable pub facade_try_lock : (initialized : Bool) → ℕ → M → Ran M Bool
  facade_try_lock initialized t m = if initialized then try_lock t m else thrown not_initialized m

  unfoldable pub facade_unlock : (initialized : Bool) → ℕ → M → Ran M Unit
  facade_unlock initialized t m = if initialized then unlock t m else thrown not_initialized m
