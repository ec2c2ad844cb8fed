-- ===== src/Ipc/Windows/RobustMutex.antt =====
-- src/ipc/win32/RobustMutex.cpp: a mutex of the system, and the thread that locked it last through
-- the object, by which a second lock is told.
pub mod Calls
mod Tests
use libazul.Base.{
  ℕ, zero, suc, ◌+◌, ◌-◌, ◌≡◌, Bool, true, false, Option, none, some, ◌==◌, if◌then◌else◌,
}

-- What `WaitForSingleObject` returns.
pub data WaitCode : Type 0 where
  wait_object_0 wait_abandoned wait_timeout wait_failed : WaitCode

-- Who has the mutex of the system; its owner gets it again, and has to release it as many times.
pub data Ownership : Type 0 where
  free abandoned : Ownership
  owned : ℕ → (more : ℕ) → Ownership

-- What the system documents; `none` where the call blocks.
abbrev pub documented_wait : (infinite : Bool) → ℕ → Ownership → Option (WaitCode × Ownership)
documented_wait i t free = some (wait_object_0, owned t 0)
documented_wait i t abandoned = some (wait_abandoned, owned t 0)
documented_wait i t (owned u n) =
    if t == u
    then some (wait_object_0, owned u (n + 1))
    else if i
    then none
    else some (wait_timeout, owned u n)

abbrev pub documented_release : ℕ → Ownership → Bool × Ownership
documented_release t free = (false, free)
documented_release t abandoned = (false, abandoned)
documented_release t (owned u zero) = if t == u then (true, free) else (false, owned u zero)
documented_release t (owned u (suc n)) =
    if t == u then (true, owned u n) else (false, owned u (suc n))

abbrev pub view_of :
    {M : Type 0} → (M → Ownership) → Option (WaitCode × M) → Option (WaitCode × Ownership)
view_of f none = none
view_of f (some (c, m)) = some (c, f m)

pub record Kernel (M : Type 0) : Type 0 where
  pub view : M → Ownership
  pub wait_for_single_object : (infinite : Bool) → ℕ → M → Option (WaitCode × M)
  pub release_mutex : ℕ → M → Bool × M
  pub wait_law :
      (i : Bool) (t : ℕ) (m : M)
      → view_of view (wait_for_single_object i t m) ≡ documented_wait i t (view m)
  pub release_code : (t : ℕ) (m : M) → (release_mutex t m).0 ≡ (documented_release t (view m)).0
  pub release_view :
      (t : ℕ) (m : M) → view (release_mutex t m).1 ≡ (documented_release t (view m)).1

pub data SyncError : Type 0 where
  not_initialized recursive_lock wait_error release_error : SyncError

pub record Mutex (M : Type 0) : Type 0 where
  pub mutex : M
  pub current_locking_thread : Option ℕ

-- How a call ends, with the object that it leaves, if it ends.
pub data Ran (S A : Type 0) : Type 0 where
  blocks : Ran S A
  returned : A → S → Ran S A
  thrown : SyncError → S → Ran S A

abbrev pub is_current : Option ℕ → ℕ → Bool
is_current none t = false
is_current (some u) t = u == t

module _ {M : Type 0} (k : Kernel M) where
  after_wait : ℕ → Mutex M → Option (WaitCode × M) → Ran (Mutex M) (Unit {0})
  after_wait t s none = blocks
  after_wait t s (some (wait_object_0, m)) =
      returned tt (record { mutex = m; current_locking_thread = some t })
  after_wait t s (some (wait_abandoned, m)) =
      returned tt (record { mutex = m; current_locking_thread = some t })
  after_wait t s (some (wait_timeout, m)) = returned tt (record s { mutex = m })
  after_wait t s (some (wait_failed, m)) = thrown wait_error (record s { mutex = m })

  pub lock : ℕ → Mutex M → Ran (Mutex M) (Unit {0})
  unfolding after_wait
  lock t s =
      if is_current s.current_locking_thread t
      then thrown recursive_lock s
      else after_wait t s (k.wait_for_single_object true t s.mutex)

  after_try : ℕ → Mutex M → Option (WaitCode × M) → Ran (Mutex M) Bool
  after_try t s none = blocks
  after_try t s (some (wait_object_0, m)) =
      returned true (record { mutex = m; current_locking_thread = some t })
  after_try t s (some (wait_abandoned, m)) =
      returned true (record { mutex = m; current_locking_thread = some t })
  after_try t s (some (wait_timeout, m)) = returned false (record s { mutex = m })
  after_try t s (some (wait_failed, m)) = thrown wait_error (record s { mutex = m })

  pub try_lock : ℕ → Mutex M → Ran (Mutex M) Bool
  unfolding after_try
  try_lock t s =
      if is_current s.current_locking_thread t
      then thrown recursive_lock s
      else after_try t s (k.wait_for_single_object false t s.mutex)

  after_release : Mutex M → Bool × M → Ran (Mutex M) (Unit {0})
  after_release s (true, m) = returned tt (record { mutex = m; current_locking_thread = none })
  after_release s (false, m) = thrown release_error (record s { mutex = m })

  pub unlock : ℕ → Mutex M → Ran (Mutex M) (Unit {0})
  unfolding after_release
  unlock t s = after_release s (k.release_mutex t s.mutex)

  -- The members of the facade; `initialized` tells whether `_impl` is set.
  pub facade_lock : (initialized : Bool) → ℕ → Mutex M → Ran (Mutex M) (Unit {0})
  facade_lock initialized t s = if initialized then lock t s else thrown not_initialized s

  pub facade_try_lock : (initialized : Bool) → ℕ → Mutex M → Ran (Mutex M) Bool
  facade_try_lock initialized t s = if initialized then try_lock t s else thrown not_initialized s

  pub facade_unlock : (initialized : Bool) → ℕ → Mutex M → Ran (Mutex M) (Unit {0})
  facade_unlock initialized t s = if initialized then unlock t s else thrown not_initialized s
