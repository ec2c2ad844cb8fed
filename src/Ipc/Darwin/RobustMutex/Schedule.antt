-- ===== src/Ipc/Darwin/RobustMutex/Schedule.antt =====
-- src/ipc/darwin/RobustMutex.cpp under any schedule of threads that call its members, and of
-- processes that die. Each member makes two calls of the system, one on the mutex of the process and
-- one on the file, so each member is two steps, and other threads make theirs in between.
use libazul.Base.{ℕ, List, [], ◌∷◌, ◌==◌, if◌then◌else◌, update}
use libazul.Ipc.Darwin.System.{System}
use libazul.Ipc.Darwin.RobustMutex.{
  Ran, blocks, returned, thrown, lock_local, lock_file, try_local, try_file, unlock_file,
  unlock_local,
}

-- Where a thread is: outside; in `lock`, or in `try_lock`, with the mutex of its process; inside; or
-- in `unlock` without the file.
pub data Phase : Type 0 where
  outside at_file trying inside leaving : Phase

pub record World (K : Type 0) : Type 0 where
  pub kernel : K
  pub phase : ℕ → Phase

-- What a thread does, or the death of a process: `begins` and `gets` are the two steps of `lock`,
-- `tries` and `tests` those of `try_lock`, `unlocks` and `releases` those of `unlock`.
pub data Event : Type 0 where
  begins gets tries tests unlocks releases dies : ℕ → Event

module _ {K : Type 0} where
  abbrev pub move : World K → ℕ → Phase → K → World K
  move w t f k = record { kernel = k; phase = update w.phase t f }

  abbrev pub stay : World K → K → World K
  stay w k = record w { kernel = k }

  -- Where a thread is after a step, by what it returned; `g` is where one that threw is.
  abbrev pub went : {A : Type 0} → World K → ℕ → (A → Phase) → Phase → Ran K A → World K
  went w t f g (blocks k) = stay w k
  went w t f g (returned a k) = move w t (f a) k
  went w t f g (thrown e k) = move w t g k

-- `process` tells to which process a thread belongs.
module _ {K : Type 0} (s : System K) (process : ℕ → ℕ) where
  -- A thread that is in a member makes no other call, and who is not inside does not unlock.
  unfoldable pub begins_in : ℕ → World K → Phase → World K
  begins_in t w outside = went w t (λ u. at_file) outside (lock_local s (process t) t w.kernel)
  begins_in t w at_file = w
  begins_in t w trying = w
  begins_in t w inside = went w t (λ u. at_file) inside (lock_local s (process t) t w.kernel)
  begins_in t w leaving = w

  unfoldable pub gets_in : ℕ → World K → Phase → World K
  gets_in t w outside = w
  gets_in t w at_file = went w t (λ u. inside) outside (lock_file s (process t) t w.kernel)
  gets_in t w trying = w
  gets_in t w inside = w
  gets_in t w leaving = w

  unfoldable pub tries_in : ℕ → World K → Phase → World K
  tries_in t w outside =
      went w t (λ b. if b then trying else outside) outside (try_local s (process t) t w.kernel)
  tries_in t w at_file = w
  tries_in t w trying = w
  tries_in t w inside =
      went w t (λ b. if b then trying else inside) inside (try_local s (process t) t w.kernel)
  tries_in t w leaving = w

  unfoldable pub tests_in : ℕ → World K → Phase → World K
  tests_in t w outside = w
  tests_in t w at_file = w
  tests_in t w trying =
      went w t (λ b. if b then inside else outside) outside (try_file s (process t) t w.kernel)
  tests_in t w inside = w
  tests_in t w leaving = w

  unfoldable pub unlocks_in : ℕ → World K → Phase → World K
  unlocks_in t w outside = w
  unlocks_in t w at_file = w
  unlocks_in t w trying = w
  unlocks_in t w inside = went w t (λ u. leaving) inside (unlock_file s (process t) t w.kernel)
  unlocks_in t w leaving = w

  unfoldable pub releases_in : ℕ → World K → Phase → World K
  releases_in t w outside = w
  releases_in t w at_file = w
  releases_in t w trying = w
  releases_in t w inside = w
  releases_in t w leaving = went w t (λ u. outside) outside (unlock_local s (process t) t w.kernel)

  unfoldable pub act : Event → World K → World K
  unfolding begins_in gets_in tries_in tests_in unlocks_in releases_in
  act (begins t) w = begins_in t w (w.phase t)
  act (gets t) w = gets_in t w (w.phase t)
  act (tries t) w = tries_in t w (w.phase t)
  act (tests t) w = tests_in t w (w.phase t)
  act (unlocks t) w = unlocks_in t w (w.phase t)
  act (releases t) w = releases_in t w (w.phase t)
  act (dies q) w = record {
    kernel = s.exit q w.kernel;
    phase = λ t. if process t == q then outside else w.phase t;
  }

  abbrev pub run : List Event → World K → World K
  run [] w = w
  run (e ∷ es) w = run es (act e w)
