-- ===== src/Ipc/Linux/RobustMutex/Recovery.antt =====
-- src/ipc/linux/RobustMutex.hpp: a mutex whose owner has died.
use libazul.Base.{ℕ, ◌≡◌, refl, ap, ◌∙◌, true, ◌==◌, arith}
use libazul.Ipc.Linux.Pthread.{
  Ownership, free, held, owner_dead, inconsistent, unrecoverable, Pthread, documented_death,
  eownerdead, enotrecoverable,
}
use libazul.Ipc.Linux.RobustMutex.{
  SyncError, failed, Ran, blocks, returned, thrown, lock, try_lock, unlock,
}
use libazul.Ipc.Linux.RobustMutex.Calls.{
  lock_effect, try_lock_effect, unlock_effect, seen, lock_refines, try_lock_refines, unlock_refines,
}

==-refl : (t : ℕ) → (t == t) ≡ true
==-refl t = ground arith

module _ {M : Type 0} (p : Pthread M) where
  seen-returned :
      {A : Type 0} (r : Ran M A) (a : A) (o : Ownership)
      → seen p r ≡ returned a o
      → (m : M) × (r ≡ returned a m) × (p.view m ≡ o)
  seen-returned blocks a o h = absurd (cc)
  seen-returned (returned b m) a o h = (m, cc, cc)
  seen-returned (thrown e m) a o h = absurd (cc)

  seen-thrown :
      {A : Type 0} (r : Ran M A) (e : SyncError) (o : Ownership)
      → seen p r ≡ thrown e o
      → (m : M) × (r ≡ thrown e m) × (p.view m ≡ o)
  seen-thrown blocks e o h = absurd (cc)
  seen-thrown (returned b m) e o h = absurd (cc)
  seen-thrown (thrown f m) e o h = (m, cc, cc)

  dead : (t : ℕ) (m : M) → p.view m ≡ held t → p.view (p.death t m) ≡ owner_dead
  dead t m h = p.death_law t m ∙ ap (documented_death t) h ∙ rw (==-refl t) refl

  unlocks_held : (u : ℕ) (m : M) → p.view m ≡ held u → seen p (unlock p u m) ≡ returned tt free
  unlocks_held u m h = unlock_refines p u m ∙ ap (unlock_effect u) h ∙ rw (==-refl u) refl

  unlocks_inconsistent :
      (u : ℕ) (m : M)
      → p.view m ≡ inconsistent u
      → seen p (unlock p u m) ≡ returned tt unrecoverable
  unlocks_inconsistent u m h = unlock_refines p u m ∙ ap (unlock_effect u) h ∙ rw (==-refl u) refl

  -- When the owner of the mutex dies, the next `lock` of any thread returns with the mutex, and the
  -- `unlock` after it frees the mutex.
  pub lock_recovers :
      (t u : ℕ) (m : M)
      → p.view m ≡ held t
      → (m₁ : M) × (lock p u (p.death t m) ≡ returned tt m₁)
        × (p.view m₁ ≡ held u)
        × (m₂ : M) × (unlock p u m₁ ≡ returned tt m₂)
        × (p.view m₂ ≡ free)
  lock_recovers t u m h =
      let (m₁, e, v) =
        seen-returned (lock p u (p.death t m)) tt (held u)
          (lock_refines p u (p.death t m) ∙ ap (lock_effect u) (dead t m h)) in
      let (m₂, e', v') = seen-returned (unlock p u m₁) tt free (unlocks_held u m₁ v) in
      (m₁, e, v, m₂, e', v')

  -- When the owner of the mutex dies and the next call is a `try_lock`, it throws though its thread
  -- has got the mutex; if the thread then unlocks the mutex, every later `lock` throws.
  pub try_lock_loses :
      (t u : ℕ) (m : M)
      → p.view m ≡ held t
      → (m₁ : M) × (try_lock p u (p.death t m) ≡ thrown (failed eownerdead) m₁)
        × (m₂ : M) × (unlock p u m₁ ≡ returned tt m₂)
        × ((v : ℕ) → (m₃ : M) × (lock p v m₂ ≡ thrown (failed enotrecoverable) m₃))
  try_lock_loses t u m h =
      let (m₁, e, v) =
        seen-thrown (try_lock p u (p.death t m)) (failed eownerdead) (inconsistent u)
          (try_lock_refines p u (p.death t m) ∙ ap (try_lock_effect u) (dead t m h)) in
      let (m₂, e', v') =
        seen-returned (unlock p u m₁) tt unrecoverable (unlocks_inconsistent u m₁ v) in
      (
        m₁,
        e,
        m₂,
        e',
        λ w.
            let (m₃, e'', _) =
              seen-thrown (lock p w m₂) (failed enotrecoverable) unrecoverable
                (lock_refines p w m₂ ∙ ap (lock_effect w) v') in
            (m₃, e''),
      )
