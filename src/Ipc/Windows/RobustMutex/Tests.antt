-- ===== src/Ipc/Windows/RobustMutex/Tests.antt =====
-- Runs of the mutex of src/ipc/win32 over a system that does just what is documented.
use libazul.Base.{◌≡◌, refl, false, Option, none, some}
use libazul.Ipc.Windows.RobustMutex.{
  WaitCode, Ownership, free, abandoned, owned, documented_wait, documented_release, view_of, Kernel,
  Mutex, recursive_lock, returned, thrown, blocks, lock, try_lock, unlock,
}
use libazul.Ipc.Windows.RobustMutex.Calls.{seen, calls_agree, lock_abandoned}

view_id : (r : Option (WaitCode × Ownership)) → view_of (λ o. o) r ≡ r
view_id none = refl
view_id (some (c, o)) = refl

abbrev documented : Kernel Ownership
documented = record {
  view = λ o. o;
  wait_for_single_object = documented_wait;
  release_mutex = documented_release;
  wait_law = λ i t o. view_id (documented_wait i t o);
  release_code = λ t o. refl;
  release_view = λ t o. refl;
}

-- Thread 3 has the mutex.
abbrev taken : Mutex Ownership
taken = record { mutex = owned 3 0; current_locking_thread = some 3 }

abbrev left_behind : Mutex Ownership
left_behind = record { mutex = abandoned; current_locking_thread = none }

lock_abandoned_example :
    (s₁ : Mutex Ownership) × (s₂ : Mutex Ownership) × (lock documented 5 left_behind
      ≡ returned tt s₁)
    × (lock documented 5 s₁ ≡ thrown recursive_lock s₁)
    × (unlock documented 5 s₁ ≡ returned tt s₂)
    × (s₂.mutex ≡ free)
lock_abandoned_example = lock_abandoned documented 5 left_behind refl refl

calls_agree_example :
    (seen documented (lock documented 5 taken) ≡ blocks)
    × (seen documented (try_lock documented 5 taken) ≡ returned false (owned 3 0, some 3))
calls_agree_example = calls_agree documented 5 taken refl
