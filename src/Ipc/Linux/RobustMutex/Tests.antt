-- ===== src/Ipc/Linux/RobustMutex/Tests.antt =====
-- Runs of the mutex of src/ipc/linux over POSIX threads that do just what the manual says.
use libazul.Base.{ℕ, ◌≡◌, refl, true, false, List, [], ◌∷◌, Option, none, some}
use libazul.Ipc.Linux.Pthread.{
  Code, Ownership, free, held, owner_dead, inconsistent, Pthread, view_of, documented_lock,
  documented_trylock, documented_unlock, documented_consistent, documented_death, eownerdead,
  enotrecoverable,
}
use libazul.Ipc.Linux.RobustMutex.{returned, thrown, failed, other_thread, lock, try_lock, unlock}
use libazul.Ipc.Linux.RobustMutex.Calls.{seen, calls_refine}
use libazul.Ipc.Linux.RobustMutex.Exclusion.{
  World, Event, locks, tries, dies, run, act, mutual_exclusion,
}
use libazul.Ipc.Linux.RobustMutex.Recovery.{lock_recovers, try_lock_loses}

view_id : (r : Option (Code × Ownership)) → view_of (λ o. o) r ≡ r
view_id none = refl
view_id (some (c, o)) = refl

abbrev manual : Pthread Ownership
manual = record {
  view = λ o. o;
  pthread_mutex_lock = documented_lock;
  pthread_mutex_trylock = documented_trylock;
  pthread_mutex_unlock = documented_unlock;
  pthread_mutex_consistent = documented_consistent;
  death = documented_death;
  lock_law = λ t o. view_id (documented_lock t o);
  trylock_code = λ t o. refl;
  trylock_view = λ t o. refl;
  unlock_code = λ t o. refl;
  unlock_view = λ t o. refl;
  consistent_law = λ o. refl;
  death_law = λ t o. refl;
}

abbrev start : World Ownership
start = record { mutex = free; inside = λ t. false }

-- Thread 1 gets the mutex and dies, thread 2 gets it, thread 3 tries.
abbrev schedule : List Event
schedule = locks 1 ∷ dies 1 ∷ locks 2 ∷ tries 3 ∷ []

inside_2 : (run manual schedule start).inside 2 ≡ true
unfolding act lock try_lock
inside_2 = refl

mutual_exclusion_example : ◌≡◌ {A = ℕ} 2 2
mutual_exclusion_example = mutual_exclusion manual schedule start (λ t. refl) 2 2 inside_2 inside_2

lock_recovers_example :
    (m₁ : Ownership) × (lock manual 2 owner_dead ≡ returned tt m₁)
    × (m₁ ≡ held 2)
    × (m₂ : Ownership) × (unlock manual 2 m₁ ≡ returned tt m₂)
    × (m₂ ≡ free)
lock_recovers_example = lock_recovers manual 1 2 (held 1) refl

try_lock_loses_example :
    (m₁ : Ownership) × (try_lock manual 2 owner_dead ≡ thrown (failed eownerdead) m₁)
    × (m₂ : Ownership) × (unlock manual 2 m₁ ≡ returned tt m₂)
    × ((v : ℕ) → (m₃ : Ownership) × (lock manual v m₂ ≡ thrown (failed enotrecoverable) m₃))
try_lock_loses_example = try_lock_loses manual 1 2 (held 1) refl

calls_refine_example :
    (seen manual (lock manual 2 owner_dead) ≡ returned tt (held 2))
    × (seen manual (try_lock manual 2 owner_dead) ≡ thrown (failed eownerdead) (inconsistent 2))
    × (seen manual (unlock manual 2 owner_dead) ≡ thrown other_thread owner_dead)
calls_refine_example = calls_refine manual 2 owner_dead
