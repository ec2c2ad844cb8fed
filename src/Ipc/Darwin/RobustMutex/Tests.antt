-- ===== src/Ipc/Darwin/RobustMutex/Tests.antt =====
-- Runs of the mutex of src/ipc/darwin over a system that does just what the manuals say.
use libazul.Base.{ℕ, ◌≡◌, refl, List, [], ◌∷◌, Option, none, some, ◌/◌, ◌==◌, if◌then◌else◌}
use libazul.Ipc.Darwin.System.{View, manual, IsDocumented, seen_some, flock_minus_1}
use libazul.Ipc.Darwin.RobustMutex.{
  returned, thrown, blocks, flock_failed, deadlock, not_owned, lock, try_lock, unlock,
}
use libazul.Ipc.Darwin.RobustMutex.Refines.{seen_ran}
use libazul.Ipc.Darwin.RobustMutex.Schedule.{
  World, Event, begins, gets, unlocks, releases, dies, outside,
}
use libazul.Ipc.Darwin.RobustMutex.Misuse.{try_lock-sticks, unlock-admits}

seen_some_id : {C : Type 0} (r : Option (C × View)) → seen_some (λ v. v) r ≡ r
seen_some_id none = refl
seen_some_id (some (c, v)) = refl

abbrev documented : IsDocumented manual
documented = record {
  view = λ v. v;
  lock_law = λ p t v. seen_some_id (manual.pthread_mutex_lock p t v);
  trylock_law = λ p t v. refl;
  unlock_law = λ p t v. refl;
  flock_ex_law = λ p v. seen_some_id (manual.flock_ex p v);
  flock_ex_nb_law = λ p v. refl;
  flock_un_law = λ p v. refl;
  exit_law = λ p v. refl;
}

-- Threads 0 to 9 belong to process 0, threads 10 to 19 to process 1.
abbrev process : ℕ → ℕ
process t = t / 10

abbrev start : World View
start = record { kernel = record { local = λ p. none; file = none }; phase = λ t. outside }

-- Thread 1 gets in and its process dies, thread 12 gets in, thread 3 waits for the file; thread 12
-- gives up the file, thread 3 gets in, and thread 12 leaves.
abbrev schedule : List Event
schedule =
    begins 1
    ∷ gets 1
    ∷ dies 0
    ∷ begins 12
    ∷ gets 12
    ∷ begins 3
    ∷ gets 3
    ∷ unlocks 12
    ∷ gets 3
    ∷ releases 12
    ∷ []

-- The other process has the file.
abbrev others_file : View
others_file = record { local = λ p. if p == 1 then some 12 else none; file = some 1 }

try_lock-sticks_example :
    (k₁ : View) × (try_lock manual 0 3 others_file ≡ thrown (flock_failed flock_minus_1) k₁)
    × (seen_ran (λ v. v) (lock manual 0 3 (manual.exit 1 k₁)) ≡ thrown deadlock (manual.exit 1 k₁))
    × (seen_ran (λ v. v) (lock manual 0 4 (manual.exit 1 k₁)) ≡ blocks (manual.exit 1 k₁))
try_lock-sticks_example = try_lock-sticks manual documented 0 1 3 4 others_file refl refl refl refl

-- Thread 3 of process 0 is inside.
abbrev three_inside : View
three_inside = record { local = λ p. if p == 0 then some 3 else none; file = some 0 }

unlock-admits_example :
    (k₁ : View) × (k₂ : View) × (unlock manual 0 4 three_inside ≡ thrown not_owned k₁)
    × (lock manual 1 12 k₁ ≡ returned tt k₂)
    × (k₂.local 0 ≡ some 3)
    × (k₂.local 1 ≡ some 12)
    × (k₂.file ≡ some 1)
unlock-admits_example =
    unlock-admits manual documented 0 1 3 4 12 three_inside refl refl refl refl refl
