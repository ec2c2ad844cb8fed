-- ===== src/Ipc/Linux/RobustMutex/Effects.antt =====
-- src/ipc/linux/RobustMutex.hpp: what one call changes for the other threads.
use libazul.Base.{ℕ, ◌≡◌, refl, true, false, ◌==◌, Bool-cases, inl, inr}
use libazul.Ipc.Linux.Pthread.{
  Ownership, free, held, owner_dead, inconsistent, unrecoverable, documented_death,
}
use libazul.Ipc.Linux.RobustMutex.{SyncError, returned, thrown}
use libazul.Ipc.Linux.RobustMutex.Calls.{lock_effect, try_lock_effect, unlock_effect}

-- Another thread's hold is as it was.
abbrev pub Others : ℕ → Ownership → Ownership → Type 0
Others t o o' = (u : ℕ) → (t == u) ≡ false → o ≡ held u → o' ≡ held u

pub lock_returns :
    (t : ℕ) (u : Unit) (o o' : Ownership)
    → lock_effect t o ≡ returned u o'
    → (o' ≡ held t) × Others t o o'
lock_returns t u free o' h = (cc, λ v n e. absurd (cc))
lock_returns t u (held v) o' h = elim (Bool-cases (t == v)) [
  | inl same ↦ let k : _ = rw same at h in absurd (cc)
  | inr other ↦ let k : _ = rw other at h in absurd (cc)
]
lock_returns t u owner_dead o' h = (cc, λ v n e. absurd (cc))
lock_returns t u (inconsistent v) o' h = elim (Bool-cases (t == v)) [
  | inl same ↦ let k : _ = rw same at h in absurd (cc)
  | inr other ↦ let k : _ = rw other at h in absurd (cc)
]
lock_returns t u unrecoverable o' h = absurd (cc)

pub lock_throws :
    (t : ℕ) (e : SyncError) (o o' : Ownership) → lock_effect t o ≡ thrown e o' → o' ≡ o
lock_throws t e free o' h = absurd (cc)
lock_throws t e (held v) o' h = elim (Bool-cases (t == v)) [
  | inl same ↦ let k : _ = rw same at h in cc
  | inr other ↦ let k : _ = rw other at h in absurd (cc)
]
lock_throws t e owner_dead o' h = absurd (cc)
lock_throws t e (inconsistent v) o' h = elim (Bool-cases (t == v)) [
  | inl same ↦ let k : _ = rw same at h in cc
  | inr other ↦ let k : _ = rw other at h in absurd (cc)
]
lock_throws t e unrecoverable o' h = cc

pub try_lock_gets :
    (t : ℕ) (o o' : Ownership)
    → try_lock_effect t o ≡ returned true o'
    → (o' ≡ held t) × Others t o o'
try_lock_gets t free o' h = (cc, λ v n e. absurd (cc))
try_lock_gets t (held v) o' h = absurd (cc)
try_lock_gets t owner_dead o' h = absurd (cc)
try_lock_gets t (inconsistent v) o' h = absurd (cc)
try_lock_gets t unrecoverable o' h = absurd (cc)

pub try_lock_leaves : (t : ℕ) (o o' : Ownership) → try_lock_effect t o ≡ returned false o' → o' ≡ o
try_lock_leaves t free o' h = absurd (cc)
try_lock_leaves t (held v) o' h = cc
try_lock_leaves t owner_dead o' h = absurd (cc)
try_lock_leaves t (inconsistent v) o' h = cc
try_lock_leaves t unrecoverable o' h = absurd (cc)

pub try_lock_throws :
    (t u : ℕ) (e : SyncError) (o o' : Ownership)
    → try_lock_effect t o ≡ thrown e o'
    → o ≡ held u
    → o' ≡ held u
try_lock_throws t u e free o' h k = absurd (cc)
try_lock_throws t u e (held v) o' h k = absurd (cc)
try_lock_throws t u e owner_dead o' h k = absurd (cc)
try_lock_throws t u e (inconsistent v) o' h k = absurd (cc)
try_lock_throws t u e unrecoverable o' h k = absurd (cc)

pub unlock_returns :
    (t : ℕ) (u : Unit) (o o' : Ownership) → unlock_effect t o ≡ returned u o' → Others t o o'
unlock_returns t u free o' h = absurd (cc)
unlock_returns t u (held v) o' h = elim (Bool-cases (t == v)) [
  | inl same ↦ λ x n e. let f : v ≡ x = cc in let g : _ = rw (← f) at n in absurd (cc)
  | inr other ↦ let k : _ = rw other at h in absurd (cc)
]
unlock_returns t u owner_dead o' h = absurd (cc)
unlock_returns t u (inconsistent v) o' h = λ x n e. absurd (cc)
unlock_returns t u unrecoverable o' h = absurd (cc)

pub unlock_throws :
    (t : ℕ) (e : SyncError) (o o' : Ownership) → unlock_effect t o ≡ thrown e o' → o' ≡ o
unlock_throws t e free o' h = cc
unlock_throws t e (held v) o' h = elim (Bool-cases (t == v)) [
  | inl same ↦ let k : _ = rw same at h in absurd (cc)
  | inr other ↦ let k : _ = rw other at h in cc
]
unlock_throws t e owner_dead o' h = cc
unlock_throws t e (inconsistent v) o' h = elim (Bool-cases (t == v)) [
  | inl same ↦ let k : _ = rw same at h in absurd (cc)
  | inr other ↦ let k : _ = rw other at h in cc
]
unlock_throws t e unrecoverable o' h = cc

pub death-Others : (t : ℕ) (o : Ownership) → Others t o (documented_death t o)
death-Others t free u n e = absurd (cc)
death-Others t (held v) u n e = let f : v ≡ u = cc in rw (f, n) refl
death-Others t owner_dead u n e = absurd (cc)
death-Others t (inconsistent v) u n e = absurd (cc)
death-Others t unrecoverable u n e = absurd (cc)
