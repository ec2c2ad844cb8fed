-- ===== src/Ipc/Darwin/System.antt =====
-- The calls of the system that src/ipc/darwin/RobustMutex.cpp makes. They are a parameter: `K` is
-- the type of the states of the system, and the laws are what the manuals document. Threads and
-- processes are numbers; each process has one object of the mutex, with a descriptor of its own and
-- an error-checking mutex of POSIX threads. No signal interrupts a call.
use libazul.Base.{ℕ, ◌≡◌, Option, none, some, ◌==◌, if◌then◌else◌, update}

-- What a call on a mutex of POSIX threads returns.
pub data Code : Type 0 where
  success edeadlk ebusy eperm einval : Code

-- What `flock` returns.
pub data FlockResult : Type 0 where
  flock_0 flock_minus_1 : FlockResult
  flock_code : ℕ → FlockResult

-- For each process, which of its threads has its mutex; and which process has locked the file.
pub record View : Type 0 where
  pub local : ℕ → Option ℕ
  pub file : Option ℕ

-- `none` where the call blocks.
pub record System (K : Type 0) : Type 0 where
  pub pthread_mutex_lock : (process thread : ℕ) → K → Option (Code × K)
  pub pthread_mutex_trylock : (process thread : ℕ) → K → Code × K
  pub pthread_mutex_unlock : (process thread : ℕ) → K → Code × K
  pub flock_ex : (process : ℕ) → K → Option (FlockResult × K)
  pub flock_ex_nb : (process : ℕ) → K → FlockResult × K
  pub flock_un : (process : ℕ) → K → FlockResult × K
  -- The process dies.
  pub exit : (process : ℕ) → K → K

abbrev pub set_local : View → ℕ → Option ℕ → View
set_local v p o = record v { local = update v.local p o }

abbrev pub set_file : View → Option ℕ → View
set_file v o = record v { file = o }

-- What the manuals say, by who has the mutex of the process, or the file.
abbrev pub documented_lock : (p t : ℕ) → View → Option ℕ → Option (Code × View)
documented_lock p t v none = some (success, set_local v p (some t))
documented_lock p t v (some u) = if t == u then some (edeadlk, v) else none

abbrev pub documented_trylock : (p t : ℕ) → View → Option ℕ → Code × View
documented_trylock p t v none = (success, set_local v p (some t))
documented_trylock p t v (some u) = (ebusy, v)

abbrev pub documented_unlock : (p t : ℕ) → View → Option ℕ → Code × View
documented_unlock p t v none = (eperm, v)
documented_unlock p t v (some u) = if t == u then (success, set_local v p none) else (eperm, v)

abbrev pub documented_flock_ex : (p : ℕ) → View → Option ℕ → Option (FlockResult × View)
documented_flock_ex p v none = some (flock_0, set_file v (some p))
documented_flock_ex p v (some q) = if p == q then some (flock_0, v) else none

abbrev pub documented_flock_ex_nb : (p : ℕ) → View → Option ℕ → FlockResult × View
documented_flock_ex_nb p v none = (flock_0, set_file v (some p))
documented_flock_ex_nb p v (some q) = if p == q then (flock_0, v) else (flock_minus_1, v)

abbrev pub documented_flock_un : (p : ℕ) → View → Option ℕ → FlockResult × View
documented_flock_un p v none = (flock_0, v)
documented_flock_un p v (some q) = if p == q then (flock_0, set_file v none) else (flock_0, v)

abbrev pub documented_exit : (p : ℕ) → View → Option ℕ → View
documented_exit p v none = set_local v p none
documented_exit p v (some q) =
    if p == q then set_file (set_local v p none) none else set_local v p none

-- The system of the manuals.
unfoldable pub manual : System View
manual = record {
  pthread_mutex_lock = λ p t v. documented_lock p t v (v.local p);
  pthread_mutex_trylock = λ p t v. documented_trylock p t v (v.local p);
  pthread_mutex_unlock = λ p t v. documented_unlock p t v (v.local p);
  flock_ex = λ p v. documented_flock_ex p v v.file;
  flock_ex_nb = λ p v. documented_flock_ex_nb p v v.file;
  flock_un = λ p v. documented_flock_un p v v.file;
  exit = λ p v. documented_exit p v v.file;
}

abbrev pub seen_some : {C K : Type 0} → (K → View) → Option (C × K) → Option (C × View)
seen_some f none = none
seen_some f (some (c, k)) = some (c, f k)

abbrev pub seen : {C K : Type 0} → (K → View) → C × K → C × View
seen f (c, k) = (c, f k)

-- A system that does what the manuals say.
pub record IsDocumented {K : Type 0} (s : System K) : Type 0 where
  pub view : K → View
  pub lock_law :
      (p t : ℕ) (k : K)
      → seen_some view (s.pthread_mutex_lock p t k) ≡ manual.pthread_mutex_lock p t (view k)
  pub trylock_law :
      (p t : ℕ) (k : K)
      → seen view (s.pthread_mutex_trylock p t k) ≡ manual.pthread_mutex_trylock p t (view k)
  pub unlock_law :
      (p t : ℕ) (k : K)
      → seen view (s.pthread_mutex_unlock p t k) ≡ manual.pthread_mutex_unlock p t (view k)
  pub flock_ex_law : (p : ℕ) (k : K) → seen_some view (s.flock_ex p k) ≡ manual.flock_ex p (view k)
  pub flock_ex_nb_law :
      (p : ℕ) (k : K) → seen view (s.flock_ex_nb p k) ≡ manual.flock_ex_nb p (view k)
  pub flock_un_law : (p : ℕ) (k : K) → seen view (s.flock_un p k) ≡ manual.flock_un p (view k)
  pub exit_law : (p : ℕ) (k : K) → view (s.exit p k) ≡ manual.exit p (view k)
