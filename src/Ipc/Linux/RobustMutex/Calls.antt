-- ===== src/Ipc/Linux/RobustMutex/Calls.antt =====
-- src/ipc/linux/RobustMutex.hpp: what `lock`, `try_lock` and `unlock` do, in terms of who has the
-- mutex.
use libazul.Base.{
  ℕ, ◌≡◌, refl, Bool, true, false, Option, none, some, ◌==◌, if◌then◌else◌, Bool-cases, inl, inr,
}
use libazul.Ipc.Linux.Pthread.{
  Code, eownerdead, enotrecoverable, Ownership, free, held, owner_dead, inconsistent, unrecoverable,
  Pthread, view_of, documented_lock, documented_trylock, documented_unlock,
}
use libazul.Ipc.Linux.RobustMutex.{
  already_locked, other_thread, failed, Ran, blocks, returned, thrown, lock, try_lock, unlock,
  after_lock, after_pthread_mutex_lock, after_try_lock, after_unlock,
}

-- What each call promises: `lock` waits for another owner and makes up for a dead one.
abbrev pub lock_effect : ℕ → Ownership → Ran Ownership Unit
lock_effect t free = returned tt (held t)
lock_effect t (held u) = if t == u then thrown already_locked (held u) else blocks
lock_effect t owner_dead = returned tt (held t)
lock_effect t (inconsistent u) = if t == u then thrown already_locked (inconsistent u) else blocks
lock_effect t unrecoverable = thrown (failed enotrecoverable) unrecoverable

-- `try_lock` never waits; on a mutex whose owner died it throws, and its thread has the mutex.
abbrev pub try_lock_effect : ℕ → Ownership → Ran Ownership Bool
try_lock_effect t free = returned true (held t)
try_lock_effect t (held u) = returned false (held u)
try_lock_effect t owner_dead = thrown (failed eownerdead) (inconsistent t)
try_lock_effect t (inconsistent u) = returned false (inconsistent u)
try_lock_effect t unrecoverable = thrown (failed enotrecoverable) unrecoverable

abbrev pub unlock_effect : ℕ → Ownership → Ran Ownership Unit
unlock_effect t free = thrown other_thread free
unlock_effect t (held u) = if t == u then returned tt free else thrown other_thread (held u)
unlock_effect t owner_dead = thrown other_thread owner_dead
unlock_effect t (inconsistent u) =
    if t == u then returned tt unrecoverable else thrown other_thread (inconsistent u)
unlock_effect t unrecoverable = thrown other_thread unrecoverable

some-pair :
    {A B : Type 0} {a b : A} {x y : B}
    → ◌≡◌ {A = Option (A × B)} (some (a, x)) (some (b, y))
    → (a ≡ b) × (x ≡ y)
some-pair h = (cc, cc)

module _ {M : Type 0} (p : Pthread M) where
  -- What a call does to the ownership.
  abbrev pub seen : {A : Type 0} → Ran M A → Ran Ownership A
  seen blocks = blocks
  seen (returned a m) = returned a (p.view m)
  seen (thrown e m) = thrown e (p.view m)

  lock-seen :
      (t : ℕ) (o : Ownership) (r : Option (Code × M))
      → view_of p.view r ≡ documented_lock t o
      → seen (after_pthread_mutex_lock p r) ≡ lock_effect t o
  unfolding after_pthread_mutex_lock after_lock
  lock-seen t free none h = absurd (cc)
  lock-seen t free (some (c, m)) h = let (e, v) = some-pair h in rw (e, v) refl
  lock-seen t (held u) none h = elim (Bool-cases (t == u)) [
    | inl same ↦ let k : _ = rw same at h in absurd (cc)
    | inr other ↦ rw other refl
  ]
  lock-seen t (held u) (some (c, m)) h = elim (Bool-cases (t == u)) [
    | inl same ↦ let (e, v) = some-pair (rw same at h) in rw (e, v, same) refl
    | inr other ↦ let k : _ = rw other at h in absurd (cc)
  ]
  lock-seen t owner_dead none h = absurd (cc)
  lock-seen t owner_dead (some (c, m)) h =
      let (e, v) = some-pair h in rw (e, p.consistent_law m, v) refl
  lock-seen t (inconsistent u) none h = elim (Bool-cases (t == u)) [
    | inl same ↦ let k : _ = rw same at h in absurd (cc)
    | inr other ↦ rw other refl
  ]
  lock-seen t (inconsistent u) (some (c, m)) h = elim (Bool-cases (t == u)) [
    | inl same ↦ let (e, v) = some-pair (rw same at h) in rw (e, v, same) refl
    | inr other ↦ let k : _ = rw other at h in absurd (cc)
  ]
  lock-seen t unrecoverable none h = absurd (cc)
  lock-seen t unrecoverable (some (c, m)) h = let (e, v) = some-pair h in rw (e, v) refl

  try_lock-seen :
      (t : ℕ) (o : Ownership) (c : Code) (m : M)
      → c ≡ (documented_trylock t o).0
      → p.view m ≡ (documented_trylock t o).1
      → seen (after_try_lock p c m) ≡ try_lock_effect t o
  unfolding after_try_lock
  try_lock-seen t free c m h v = rw (h, v) refl
  try_lock-seen t (held u) c m h v = rw (h, v) refl
  try_lock-seen t owner_dead c m h v = rw (h, v) refl
  try_lock-seen t (inconsistent u) c m h v = rw (h, v) refl
  try_lock-seen t unrecoverable c m h v = rw (h, v) refl

  unlock-seen :
      (t : ℕ) (o : Ownership) (c : Code) (m : M)
      → c ≡ (documented_unlock t o).0
      → p.view m ≡ (documented_unlock t o).1
      → seen (after_unlock p c m) ≡ unlock_effect t o
  unfolding after_unlock
  unlock-seen t free c m h v = rw (h, v) refl
  unlock-seen t (held u) c m h v = elim (Bool-cases (t == u)) [
    | inl same ↦ rw (rw same at h, rw same at v, same) refl
    | inr other ↦ rw (rw other at h, rw other at v, other) refl
  ]
  unlock-seen t owner_dead c m h v = rw (h, v) refl
  unlock-seen t (inconsistent u) c m h v = elim (Bool-cases (t == u)) [
    | inl same ↦ rw (rw same at h, rw same at v, same) refl
    | inr other ↦ rw (rw other at h, rw other at v, other) refl
  ]
  unlock-seen t unrecoverable c m h v = rw (h, v) refl

  -- On every ownership `try_lock` returns or throws what it promises.
  pub try_lock_refines : (t : ℕ) (m : M) → seen (try_lock p t m) ≡ try_lock_effect t (p.view m)
  unfolding try_lock
  try_lock_refines t m = try_lock-seen t (p.view m) _ _ (p.trylock_code t m) (p.trylock_view t m)

  -- On every ownership `unlock` returns or throws what it promises.
  pub unlock_refines : (t : ℕ) (m : M) → seen (unlock p t m) ≡ unlock_effect t (p.view m)
  unfolding unlock
  unlock_refines t m = unlock-seen t (p.view m) _ _ (p.unlock_code t m) (p.unlock_view t m)

  -- On every ownership `lock` blocks, returns or throws as it promises.
  pub lock_refines : (t : ℕ) (m : M) → seen (lock p t m) ≡ lock_effect t (p.view m)
  unfolding lock
  lock_refines t m = lock-seen t (p.view m) (p.pthread_mutex_lock t m) (p.lock_law t m)

  -- On every ownership `lock` blocks, returns or throws as it promises, and so do `try_lock` and
  -- `unlock`.
  pub calls_refine :
      (t : ℕ) (m : M)
      → (seen (lock p t m) ≡ lock_effect t (p.view m))
        × (seen (try_lock p t m) ≡ try_lock_effect t (p.view m))
        × (seen (unlock p t m) ≡ unlock_effect t (p.view m))
  calls_refine t m = (lock_refines t m, try_lock_refines t m, unlock_refines t m)
