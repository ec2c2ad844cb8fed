-- ===== src/Ipc/Darwin/RobustMutex.antt =====
-- src/ipc/darwin/RobustMutex.cpp: the members of the mutex and of its facade.
pub mod Refines
pub mod Schedule
pub mod Seen
pub mod Members
pub mod Keeps
pub mod Steps
pub mod Exclusion
pub mod Misuse
mod Tests
use libazul.Base.{ℕ, ◌≡◌, Bool, true, false, Option, none, some, ◌==◌, if◌then◌else◌}
use libazul.Ipc.Darwin.System.{
  System, Code, success, edeadlk, ebusy, eperm, einval, FlockResult, flock_0, flock_minus_1,
  flock_code,
}

-- What the members throw.
pub data SyncError : Type 0 where
  not_initialized deadlock not_owned : SyncError
  flock_failed : FlockResult → SyncError

-- How a call ends, with the state of the system that it leaves, or where it waits.
pub data Ran (K A : Type 0) : Type 0 where
  blocks : K → Ran K A
  returned : A → K → Ran K A
  thrown : SyncError → K → Ran K A

abbrev ebadf : ℕ
ebadf = 9

abbrev ewouldblock : ℕ
ewouldblock = 35

abbrev is_code : ℕ → FlockResult → Bool
is_code n flock_0 = n == 0
is_code n flock_minus_1 = false
is_code n (flock_code c) = n == c

module _ {K : Type 0} (s : System K) (process thread : ℕ) where
  -- `lock` from `flock` on.
  after_flock : K → Option (FlockResult × K) → Ran K Unit
  after_flock k none = blocks k
  after_flock k (some (r, k')) = if is_code 0 r then returned tt k' else thrown (flock_failed r) k'

  unfoldable pub lock_file : K → Ran K Unit
  unfolding after_flock
  lock_file k = after_flock k (s.flock_ex process k)

  -- `lock` up to `flock`; of the codes only that of a deadlock is looked at.
  after_mutex_lock : K → Option (Code × K) → Ran K Unit
  after_mutex_lock k none = blocks k
  after_mutex_lock k (some (edeadlk, k')) = thrown deadlock k'
  after_mutex_lock k (some (success, k')) = returned tt k'
  after_mutex_lock k (some (ebusy, k')) = returned tt k'
  after_mutex_lock k (some (eperm, k')) = returned tt k'
  after_mutex_lock k (some (einval, k')) = returned tt k'

  unfoldable pub lock_local : K → Ran K Unit
  unfolding after_mutex_lock
  lock_local k = after_mutex_lock k (s.pthread_mutex_lock process thread k)

  then_file : Ran K Unit → Ran K Unit
  unfolding lock_file
  then_file (blocks k) = blocks k
  then_file (returned u k) = lock_file k
  then_file (thrown e k) = thrown e k

  unfoldable pub lock : K → Ran K Unit
  unfolding then_file lock_local
  lock k = then_file (lock_local k)

  -- `try_lock` from `flock` on, whose result is compared with a code of `errno`.
  after_flock_nb : FlockResult × K → Ran K Bool
  after_flock_nb (r, k) =
      if is_code ewouldblock r
      then returned false k
      else if is_code 0 r
      then returned true k
      else thrown (flock_failed r) k

  -- `try_lock` up to `flock`; of the codes only that of a busy mutex is looked at.
  after_trylock : Code × K → Ran K Bool
  after_trylock (ebusy, k) = returned false k
  after_trylock (success, k) = returned true k
  after_trylock (edeadlk, k) = returned true k
  after_trylock (eperm, k) = returned true k
  after_trylock (einval, k) = returned true k

  unfoldable pub try_local : K → Ran K Bool
  unfolding after_trylock
  try_local k = after_trylock (s.pthread_mutex_trylock process thread k)

  unfoldable pub try_file : K → Ran K Bool
  unfolding after_flock_nb
  try_file k = after_flock_nb (s.flock_ex_nb process k)

  then_try_file : Ran K Bool → Ran K Bool
  unfolding try_file
  then_try_file (blocks k) = blocks k
  then_try_file (returned true k) = try_file k
  then_try_file (returned false k) = returned false k
  then_try_file (thrown e k) = thrown e k

  unfoldable pub try_lock : K → Ran K Bool
  unfolding then_try_file try_local
  try_lock k = then_try_file (try_local k)

  after_mutex_unlock : Code × K → Ran K Unit
  after_mutex_unlock (eperm, k) = thrown not_owned k
  after_mutex_unlock (success, k) = returned tt k
  after_mutex_unlock (edeadlk, k) = returned tt k
  after_mutex_unlock (ebusy, k) = returned tt k
  after_mutex_unlock (einval, k) = returned tt k

  -- `unlock` from `pthread_mutex_unlock` on.
  unfoldable pub unlock_local : K → Ran K Unit
  unfolding after_mutex_unlock
  unlock_local k = after_mutex_unlock (s.pthread_mutex_unlock process thread k)

  -- `unlock` up to `pthread_mutex_unlock`.
  after_flock_un : FlockResult × K → Ran K Unit
  after_flock_un (r, k) = if is_code 0 r then returned tt k else thrown (flock_failed r) k

  unfoldable pub unlock_file : K → Ran K Unit
  unfolding after_flock_un
  unlock_file k = after_flock_un (s.flock_un process k)

  then_local : Ran K Unit → Ran K Unit
  unfolding unlock_local
  then_local (blocks k) = blocks k
  then_local (returned u k) = unlock_local k
  then_local (thrown e k) = thrown e k

  unfoldable pub unlock : K → Ran K Unit
  unfolding then_local unlock_file
  unlock k = then_local (unlock_file k)

  -- The members of the facade; `initialized` tells whether `_impl` is set.
  unfoldable pub facade_lock : (initialized : Bool) → K → Ran K Unit
  facade_lock initialized k = if initialized then lock k else thrown not_initialized k

  unfoldable pub facade_try_lock : (initialized : Bool) → K → Ran K Bool
  facade_try_lock initialized k = if initialized then try_lock k else thrown not_initialized k

  unfoldable pub facade_unlock : (initialized : Bool) → K → Ran K Unit
  facade_unlock initialized k = if initialized then unlock k else thrown not_initialized k
