-- ===== src/Ipc/Darwin/RobustMutex/Members.antt =====
-- src/ipc/darwin/RobustMutex.cpp: the steps of a schedule that make up a call of a member.
use libazul.Base.{ℕ, ◌≡◌, refl, Bool, true, false, ◌==◌, if◌then◌else◌, update, arith}
use libazul.Ipc.Darwin.System.{System}
use libazul.Ipc.Darwin.RobustMutex.{
  Ran, blocks, returned, thrown, lock_local, lock_file, try_local, try_file, unlock_file,
  unlock_local, lock, try_lock, unlock, then_file, then_try_file, then_local,
}
use libazul.Ipc.Darwin.RobustMutex.Schedule.{
  Phase, outside, at_file, trying, inside, leaving, World, begins, gets, tries, tests, unlocks,
  releases, went, begins_in, gets_in, tries_in, tests_in, unlocks_in, releases_in, act,
}

-- The state of the system when a call has ended, or where it waits.
abbrev pub left : {K A : Type 0} → Ran K A → K
left (blocks k) = k
left (returned a k) = k
left (thrown e k) = k

module _ {K : Type 0} (s : System K) (process : ℕ → ℕ) where
  -- The two steps of a call, with no other step in between, do what the member does.
  abbrev pub AsCalled : World K → ℕ → Phase → Type 0
  AsCalled w t outside =
      ((act s process (gets t) (act s process (begins t) w)).kernel
        ≡ left (lock s (process t) t w.kernel))
      × ((act s process (tests t) (act s process (tries t) w)).kernel
          ≡ left (try_lock s (process t) t w.kernel))
  AsCalled w t at_file = Unit
  AsCalled w t trying = Unit
  AsCalled w t inside =
      (act s process (releases t) (act s process (unlocks t) w)).kernel
      ≡ left (unlock s (process t) t w.kernel)
  AsCalled w t leaving = Unit

  went-left :
      {A : Type 0} (w : World K) (t : ℕ) (f : A → Phase) (g : Phase) (r : Ran K A)
      → (went w t f g r).kernel ≡ left r
  went-left w t f g (blocks k) = refl
  went-left w t f g (returned a k) = refl
  went-left w t f g (thrown e k) = refl

  same : (t : ℕ) → (t == t) ≡ true
  same t = ground arith

  gets-left :
      (w : World K) (t : ℕ) (r : Ran K Unit)
      → w.phase t ≡ outside
      → (gets_in s process t
          (went w t (λ u. at_file) outside r)
          ((went w t (λ u. at_file) outside r).phase t)).kernel
        ≡ left (then_file s (process t) t r)
  unfolding gets_in then_file
  gets-left w t (blocks k) o = rw o refl
  gets-left w t (returned u k) o = rw (same t) (
      went-left (record { kernel = k; phase = update w.phase t at_file }) t (λ u. inside) outside
        (lock_file s (process t) t k))
  gets-left w t (thrown e k) o = rw (same t) refl

  tests-left :
      (w : World K) (t : ℕ) (r : Ran K Bool)
      → w.phase t ≡ outside
      → (tests_in s process t
          (went w t (λ b. if b then trying else outside) outside r)
          ((went w t (λ b. if b then trying else outside) outside r).phase t)).kernel
        ≡ left (then_try_file s (process t) t r)
  unfolding tests_in then_try_file
  tests-left w t (blocks k) o = rw o refl
  tests-left w t (returned true k) o = rw (same t) (
      went-left (record { kernel = k; phase = update w.phase t trying }) t
        (λ b. if b then inside else outside) outside (try_file s (process t) t k))
  tests-left w t (returned false k) o = rw (same t) refl
  tests-left w t (thrown e k) o = rw (same t) refl

  releases-left :
      (w : World K) (t : ℕ) (r : Ran K Unit)
      → w.phase t ≡ inside
      → (releases_in s process t
          (went w t (λ u. leaving) inside r)
          ((went w t (λ u. leaving) inside r).phase t)).kernel
        ≡ left (then_local s (process t) t r)
  unfolding releases_in then_local
  releases-left w t (blocks k) o = rw o refl
  releases-left w t (returned u k) o = rw (same t) (
      went-left (record { kernel = k; phase = update w.phase t leaving }) t (λ u. outside) outside
        (unlock_local s (process t) t k))
  releases-left w t (thrown e k) o = rw (same t) refl

  act-AsCalled : (w : World K) (t : ℕ) (f : Phase) → w.phase t ≡ f → AsCalled w t f
  unfolding act begins_in tries_in unlocks_in lock try_lock unlock
  act-AsCalled w t outside o = (
    rw o (gets-left w t (lock_local s (process t) t w.kernel) o),
    rw o (tests-left w t (try_local s (process t) t w.kernel) o),
  )
  act-AsCalled w t at_file o = tt
  act-AsCalled w t trying o = tt
  act-AsCalled w t inside o = rw o (releases-left w t (unlock_file s (process t) t w.kernel) o)
  act-AsCalled w t leaving o = tt

  -- Two steps of a thread are a call of a member, whatever the phase of the thread.
  pub steps-AsCalled : (w : World K) (t : ℕ) → AsCalled w t (w.phase t)
  steps-AsCalled w t = act-AsCalled w t (w.phase t) refl
