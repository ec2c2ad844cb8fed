-- ===== src/Ipc/Linux/Pthread.antt =====
-- The calls of POSIX threads that src/ipc/linux makes on a mutex that is robust, shared between
-- processes and of the error-checking kind. They are a parameter: `M` is the type of the states of
-- the mutex, and the laws are what the manual documents. Threads are numbers.
use libazul.Base.{ℕ, ◌≡◌, Option, none, some, ◌==◌, if◌then◌else◌}

-- What a call returns.
pub data Code : Type 0 where
  success edeadlk eownerdead ebusy eperm enotrecoverable einval etimedout : Code
  other : ℕ → Code

-- Who has the mutex: nobody, a thread, nobody since its owner died, a thread that got it after its
-- owner had died and has not made it consistent, nobody ever again.
pub data Ownership : Type 0 where
  free : Ownership
  held : ℕ → Ownership
  owner_dead : Ownership
  inconsistent : ℕ → Ownership
  unrecoverable : Ownership

-- What the manual says of each call; `none` where the call blocks.
abbrev pub documented_lock : ℕ → Ownership → Option (Code × Ownership)
documented_lock t free = some (success, held t)
documented_lock t (held u) = if t == u then some (edeadlk, held u) else none
documented_lock t owner_dead = some (eownerdead, inconsistent t)
documented_lock t (inconsistent u) = if t == u then some (edeadlk, inconsistent u) else none
documented_lock t unrecoverable = some (enotrecoverable, unrecoverable)

abbrev pub documented_trylock : ℕ → Ownership → Code × Ownership
documented_trylock t free = (success, held t)
documented_trylock t (held u) = (ebusy, held u)
documented_trylock t owner_dead = (eownerdead, inconsistent t)
documented_trylock t (inconsistent u) = (ebusy, inconsistent u)
documented_trylock t unrecoverable = (enotrecoverable, unrecoverable)

abbrev pub documented_unlock : ℕ → Ownership → Code × Ownership
documented_unlock t free = (eperm, free)
documented_unlock t (held u) = if t == u then (success, free) else (eperm, held u)
documented_unlock t owner_dead = (eperm, owner_dead)
documented_unlock t (inconsistent u) =
    if t == u then (success, unrecoverable) else (eperm, inconsistent u)
documented_unlock t unrecoverable = (eperm, unrecoverable)

abbrev pub documented_consistent : Ownership → Ownership
documented_consistent free = free
documented_consistent (held u) = held u
documented_consistent owner_dead = owner_dead
documented_consistent (inconsistent u) = held u
documented_consistent unrecoverable = unrecoverable

abbrev pub documented_death : ℕ → Ownership → Ownership
documented_death t free = free
documented_death t (held u) = if t == u then owner_dead else held u
documented_death t owner_dead = owner_dead
documented_death t (inconsistent u) = if t == u then owner_dead else inconsistent u
documented_death t unrecoverable = unrecoverable

abbrev pub view_of : {M : Type 0} → (M → Ownership) → Option (Code × M) → Option (Code × Ownership)
view_of f none = none
view_of f (some (c, m)) = some (c, f m)

-- `death` is what the system does to the mutex when a thread dies.
pub record Pthread (M : Type 0) : Type 0 where
  pub view : M → Ownership
  pub pthread_mutex_lock : ℕ → M → Option (Code × M)
  pub pthread_mutex_trylock : ℕ → M → Code × M
  pub pthread_mutex_unlock : ℕ → M → Code × M
  pub pthread_mutex_consistent : M → M
  pub death : ℕ → M → M
  pub lock_law :
      (t : ℕ) (m : M) → view_of view (pthread_mutex_lock t m) ≡ documented_lock t (view m)
  pub trylock_code :
      (t : ℕ) (m : M) → (pthread_mutex_trylock t m).0 ≡ (documented_trylock t (view m)).0
  pub trylock_view :
      (t : ℕ) (m : M) → view (pthread_mutex_trylock t m).1 ≡ (documented_trylock t (view m)).1
  pub unlock_code :
      (t : ℕ) (m : M) → (pthread_mutex_unlock t m).0 ≡ (documented_unlock t (view m)).0
  pub unlock_view :
      (t : ℕ) (m : M) → view (pthread_mutex_unlock t m).1 ≡ (documented_unlock t (view m)).1
  pub consistent_law : (m : M) → view (pthread_mutex_consistent m) ≡ documented_consistent (view m)
  pub death_law : (t : ℕ) (m : M) → view (death t m) ≡ documented_death t (view m)
