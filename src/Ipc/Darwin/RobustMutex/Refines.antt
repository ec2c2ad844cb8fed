-- ===== src/Ipc/Darwin/RobustMutex/Refines.antt =====
-- src/ipc/darwin/RobustMutex.cpp: over a system that does what the manuals say the members do what
-- they do over the manuals themselves.
use libazul.Base.{
  ℕ, ◌≡◌, refl, ap, ◌∙◌, Bool, true, false, Option, none, some, Bool-cases, inl, inr,
}
use libazul.Ipc.Darwin.System.{
  System, Code, success, edeadlk, ebusy, eperm, einval, FlockResult, View, manual, IsDocumented,
  seen, seen_some,
}
use libazul.Ipc.Darwin.RobustMutex.{
  Ran, blocks, returned, thrown, is_code, ewouldblock, after_flock, lock_file, after_mutex_lock,
  lock_local, then_file, lock, after_flock_nb, after_trylock, try_local, try_file, then_try_file,
  try_lock, after_mutex_unlock, after_flock_un, unlock_file, unlock_local, then_local, unlock,
}

abbrev pub seen_ran : {K A : Type 0} → (K → View) → Ran K A → Ran View A
seen_ran f (blocks k) = blocks (f k)
seen_ran f (returned a k) = returned a (f k)
seen_ran f (thrown e k) = thrown e (f k)

module _ {K : Type 0} (s : System K) (d : IsDocumented s) (p t : ℕ) where
  after_flock-seen :
      (k : K) (r : Option (FlockResult × K))
      → seen_ran d.view (after_flock s p t k r)
        ≡ after_flock manual p t (d.view k) (seen_some d.view r)
  unfolding after_flock
  after_flock-seen k none = refl
  after_flock-seen k (some (r, k')) = elim (Bool-cases (is_code 0 r)) [
    | inl e ↦ rw e refl
    | inr e ↦ rw e refl
  ]

  pub lock_file_refines :
      (k : K) → seen_ran d.view (lock_file s p t k) ≡ lock_file manual p t (d.view k)
  unfolding lock_file
  lock_file_refines k =
      after_flock-seen k (s.flock_ex p k)
      ∙ ap (after_flock manual p t (d.view k)) (d.flock_ex_law p k)

  after_mutex_lock-seen :
      (k : K) (r : Option (Code × K))
      → seen_ran d.view (after_mutex_lock s p t k r)
        ≡ after_mutex_lock manual p t (d.view k) (seen_some d.view r)
  unfolding after_mutex_lock
  after_mutex_lock-seen k none = refl
  after_mutex_lock-seen k (some (success, k')) = refl
  after_mutex_lock-seen k (some (edeadlk, k')) = refl
  after_mutex_lock-seen k (some (ebusy, k')) = refl
  after_mutex_lock-seen k (some (eperm, k')) = refl
  after_mutex_lock-seen k (some (einval, k')) = refl

  pub lock_local_refines :
      (k : K) → seen_ran d.view (lock_local s p t k) ≡ lock_local manual p t (d.view k)
  unfolding lock_local
  lock_local_refines k =
      after_mutex_lock-seen k (s.pthread_mutex_lock p t k)
      ∙ ap (after_mutex_lock manual p t (d.view k)) (d.lock_law p t k)

  then_file-seen :
      (r : Ran K Unit)
      → seen_ran d.view (then_file s p t r) ≡ then_file manual p t (seen_ran d.view r)
  unfolding then_file
  then_file-seen (blocks k) = refl
  then_file-seen (returned u k) = lock_file_refines k
  then_file-seen (thrown e k) = refl

  pub lock_refines : (k : K) → seen_ran d.view (lock s p t k) ≡ lock manual p t (d.view k)
  unfolding lock
  lock_refines k =
      then_file-seen (lock_local s p t k) ∙ ap (then_file manual p t) (lock_local_refines k)

  after_flock_nb-seen :
      (r : FlockResult × K)
      → seen_ran d.view (after_flock_nb s p t r) ≡ after_flock_nb manual p t (seen d.view r)
  unfolding after_flock_nb
  after_flock_nb-seen (r, k) = elim (Bool-cases (is_code ewouldblock r)) [
    | inl e ↦ rw e refl
    | inr e ↦ elim (Bool-cases (is_code 0 r)) [ inl z ↦ rw (e, z) refl | inr z ↦ rw (e, z) refl ]
  ]

  pub try_file_refines :
      (k : K) → seen_ran d.view (try_file s p t k) ≡ try_file manual p t (d.view k)
  unfolding try_file
  try_file_refines k =
      after_flock_nb-seen (s.flock_ex_nb p k)
      ∙ ap (after_flock_nb manual p t) (d.flock_ex_nb_law p k)

  after_trylock-seen :
      (r : Code × K)
      → seen_ran d.view (after_trylock s p t r) ≡ after_trylock manual p t (seen d.view r)
  unfolding after_trylock
  after_trylock-seen (ebusy, k) = refl
  after_trylock-seen (success, k) = refl
  after_trylock-seen (edeadlk, k) = refl
  after_trylock-seen (eperm, k) = refl
  after_trylock-seen (einval, k) = refl

  pub try_local_refines :
      (k : K) → seen_ran d.view (try_local s p t k) ≡ try_local manual p t (d.view k)
  unfolding try_local
  try_local_refines k =
      after_trylock-seen (s.pthread_mutex_trylock p t k)
      ∙ ap (after_trylock manual p t) (d.trylock_law p t k)

  then_try_file-seen :
      (r : Ran K Bool)
      → seen_ran d.view (then_try_file s p t r) ≡ then_try_file manual p t (seen_ran d.view r)
  unfolding then_try_file
  then_try_file-seen (blocks k) = refl
  then_try_file-seen (returned true k) = try_file_refines k
  then_try_file-seen (returned false k) = refl
  then_try_file-seen (thrown e k) = refl

  pub try_lock_refines :
      (k : K) → seen_ran d.view (try_lock s p t k) ≡ try_lock manual p t (d.view k)
  unfolding try_lock
  try_lock_refines k =
      then_try_file-seen (try_local s p t k) ∙ ap (then_try_file manual p t) (try_local_refines k)

  after_mutex_unlock-seen :
      (r : Code × K)
      → seen_ran d.view (after_mutex_unlock s p t r) ≡ after_mutex_unlock manual p t (seen d.view r)
  unfolding after_mutex_unlock
  after_mutex_unlock-seen (success, k) = refl
  after_mutex_unlock-seen (edeadlk, k) = refl
  after_mutex_unlock-seen (ebusy, k) = refl
  after_mutex_unlock-seen (eperm, k) = refl
  after_mutex_unlock-seen (einval, k) = refl

  pub unlock_local_refines :
      (k : K) → seen_ran d.view (unlock_local s p t k) ≡ unlock_local manual p t (d.view k)
  unfolding unlock_local
  unlock_local_refines k =
      after_mutex_unlock-seen (s.pthread_mutex_unlock p t k)
      ∙ ap (after_mutex_unlock manual p t) (d.unlock_law p t k)

  after_flock_un-seen :
      (r : FlockResult × K)
      → seen_ran d.view (after_flock_un s p t r) ≡ after_flock_un manual p t (seen d.view r)
  unfolding after_flock_un
  after_flock_un-seen (r, k) = elim (Bool-cases (is_code 0 r)) [
    | inl z ↦ rw z refl
    | inr z ↦ rw z refl
  ]

  pub unlock_file_refines :
      (k : K) → seen_ran d.view (unlock_file s p t k) ≡ unlock_file manual p t (d.view k)
  unfolding unlock_file
  unlock_file_refines k =
      after_flock_un-seen (s.flock_un p k) ∙ ap (after_flock_un manual p t) (d.flock_un_law p k)

  then_local-seen :
      (r : Ran K Unit)
      → seen_ran d.view (then_local s p t r) ≡ then_local manual p t (seen_ran d.view r)
  unfolding then_local
  then_local-seen (blocks k) = refl
  then_local-seen (returned u k) = unlock_local_refines k
  then_local-seen (thrown e k) = refl

  pub unlock_refines : (k : K) → seen_ran d.view (unlock s p t k) ≡ unlock manual p t (d.view k)
  unfolding unlock
  unlock_refines k =
      then_local-seen (unlock_file s p t k) ∙ ap (then_local manual p t) (unlock_file_refines k)
