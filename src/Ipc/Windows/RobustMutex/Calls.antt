-- ===== src/Ipc/Windows/RobustMutex/Calls.antt =====
-- src/ipc/win32/RobustMutex.cpp: what `lock`, `try_lock` and `unlock` do, in terms of who has the
-- mutex.
use libazul.Base.{
  ℕ, ◌≡◌, refl, sym, ap, ◌∙◌, Bool, true, false, Option, none, some, ◌==◌, if◌then◌else◌,
  Bool-cases, inl, inr, arith,
}
use libazul.Ipc.Windows.RobustMutex.{
  WaitCode, Ownership, free, abandoned, owned, documented_wait, documented_release, view_of, Kernel,
  Mutex, recursive_lock, Ran, blocks, returned, thrown, is_current, lock, try_lock, unlock,
  after_wait, after_try, after_release,
}

-- The owner and the thread that the object tells as the last to lock it.
abbrev pub Holding : Type 0
Holding = Ownership × Option ℕ

-- What each call promises to a thread, where the object and the system agree on whether it has
-- the mutex: it waits for other threads only, and gets a mutex whose owner has died.
abbrev pub lock_effect : ℕ → Ownership → Option ℕ → Ran Holding (Unit {0})
lock_effect t free c = returned tt (owned t 0, some t)
lock_effect t abandoned c = returned tt (owned t 0, some t)
lock_effect t (owned u n) c = if t == u then thrown recursive_lock (owned u n, c) else blocks

abbrev pub try_lock_effect : ℕ → Ownership → Option ℕ → Ran Holding Bool
try_lock_effect t free c = returned true (owned t 0, some t)
try_lock_effect t abandoned c = returned true (owned t 0, some t)
try_lock_effect t (owned u n) c =
    if t == u then thrown recursive_lock (owned u n, c) else returned false (owned u n, c)

-- The thread has the mutex.
abbrev pub is_owner : ℕ → Ownership → Bool
is_owner t free = false
is_owner t abandoned = false
is_owner t (owned u n) = t == u

some-pair :
    {A B : Type 0} {a b : A} {x y : B}
    → ◌≡◌ {A = Option (A × B)} (some (a, x)) (some (b, y))
    → (a ≡ b) × (x ≡ y)
some-pair h = (cc, cc)

module _ {M : Type 0} (k : Kernel M) where
  abbrev pub seen : {A : Type 0} → Ran (Mutex M) A → Ran Holding A
  seen blocks = blocks
  seen (returned a s) = returned a (k.view s.mutex, s.current_locking_thread)
  seen (thrown e s) = thrown e (k.view s.mutex, s.current_locking_thread)

  after_wait-seen :
      (t : ℕ) (s : Mutex M) (o : Ownership) (r : Option (WaitCode × M))
      → is_owner t o ≡ false
      → view_of k.view r ≡ documented_wait true t o
      → seen (after_wait k t s r) ≡ lock_effect t o s.current_locking_thread
  unfolding after_wait
  after_wait-seen t s free none d h = absurd (cc)
  after_wait-seen t s free (some (c, m)) d h = let (e, v) = some-pair h in rw (e, v) refl
  after_wait-seen t s abandoned none d h = absurd (cc)
  after_wait-seen t s abandoned (some (c, m)) d h = let (e, v) = some-pair h in rw (e, v) refl
  after_wait-seen t s (owned u n) none d h = rw d refl
  after_wait-seen t s (owned u n) (some (c, m)) d h = let f : _ = rw d at h in absurd (cc)

  after_try-seen :
      (t : ℕ) (s : Mutex M) (o : Ownership) (r : Option (WaitCode × M))
      → is_owner t o ≡ false
      → view_of k.view r ≡ documented_wait false t o
      → seen (after_try k t s r) ≡ try_lock_effect t o s.current_locking_thread
  unfolding after_try
  after_try-seen t s free none d h = absurd (cc)
  after_try-seen t s free (some (c, m)) d h = let (e, v) = some-pair h in rw (e, v) refl
  after_try-seen t s abandoned none d h = absurd (cc)
  after_try-seen t s abandoned (some (c, m)) d h = let (e, v) = some-pair h in rw (e, v) refl
  after_try-seen t s (owned u n) none d h = let f : _ = rw d at h in absurd (cc)
  after_try-seen t s (owned u n) (some (c, m)) d h =
      let (e, v) = some-pair (rw d at h) in rw (e, v, d) refl

  lock_own :
      (t : ℕ) (o : Ownership) (c : Option ℕ)
      → is_owner t o ≡ true
      → lock_effect t o c ≡ thrown recursive_lock (o, c)
  lock_own t free c h = absurd (cc)
  lock_own t abandoned c h = absurd (cc)
  lock_own t (owned u n) c h = rw h refl

  try_lock_own :
      (t : ℕ) (o : Ownership) (c : Option ℕ)
      → is_owner t o ≡ true
      → try_lock_effect t o c ≡ thrown recursive_lock (o, c)
  try_lock_own t free c h = absurd (cc)
  try_lock_own t abandoned c h = absurd (cc)
  try_lock_own t (owned u n) c h = rw h refl

  -- Where the object and the system agree on whether the thread has the mutex, `lock` throws if it
  -- does, gets a mutex that is free or whose owner died, and blocks on another thread's.
  pub lock_agrees :
      (t : ℕ) (s : Mutex M)
      → is_current s.current_locking_thread t ≡ is_owner t (k.view s.mutex)
      → seen (lock k t s) ≡ lock_effect t (k.view s.mutex) s.current_locking_thread
  unfolding lock
  lock_agrees t s h = elim (Bool-cases (is_owner t (k.view s.mutex))) [
    | inl own ↦ rw (h ∙ own) (sym (lock_own t (k.view s.mutex) s.current_locking_thread own))
    | inr other ↦ rw (h ∙ other) (
        after_wait-seen t s (k.view s.mutex) (k.wait_for_single_object true t s.mutex) other
          (k.wait_law true t s.mutex))
  ]

  -- The same of `try_lock`, which returns false where another thread has the mutex.
  pub try_lock_agrees :
      (t : ℕ) (s : Mutex M)
      → is_current s.current_locking_thread t ≡ is_owner t (k.view s.mutex)
      → seen (try_lock k t s) ≡ try_lock_effect t (k.view s.mutex) s.current_locking_thread
  unfolding try_lock
  try_lock_agrees t s h = elim (Bool-cases (is_owner t (k.view s.mutex))) [
    | inl own ↦ rw (h ∙ own) (sym (try_lock_own t (k.view s.mutex) s.current_locking_thread own))
    | inr other ↦ rw (h ∙ other) (
        after_try-seen t s (k.view s.mutex) (k.wait_for_single_object false t s.mutex) other
          (k.wait_law false t s.mutex))
  ]

  -- Where the object and the system agree on whether the thread has the mutex: `lock` and
  -- `try_lock` throw if it does, and get a mutex that is free or whose owner died; on another
  -- thread's `lock` blocks, and `try_lock` returns false.
  pub calls_agree :
      (t : ℕ) (s : Mutex M)
      → is_current s.current_locking_thread t ≡ is_owner t (k.view s.mutex)
      → (seen (lock k t s) ≡ lock_effect t (k.view s.mutex) s.current_locking_thread)
        × (seen (try_lock k t s) ≡ try_lock_effect t (k.view s.mutex) s.current_locking_thread)
  calls_agree t s h = (lock_agrees t s h, try_lock_agrees t s h)

  seen-returned :
      {A : Type 0} (r : Ran (Mutex M) A) (a : A) (o : Ownership) (c : Option ℕ)
      → seen r ≡ returned a (o, c)
      → (s : Mutex M) × (r ≡ returned a s) × (k.view s.mutex ≡ o) × (s.current_locking_thread ≡ c)
  seen-returned blocks a o c h = absurd (cc)
  seen-returned (returned b s) a o c h = (s, cc, cc, cc)
  seen-returned (thrown e s) a o c h = absurd (cc)

  released :
      (s : Mutex M) (b : Bool) (m : M)
      → b ≡ true
      → seen (after_release k s (b, m)) ≡ returned tt (k.view m, none)
  unfolding after_release
  released s b m h = rw h refl

  unlock-seen :
      (t : ℕ) (s : Mutex M)
      → k.view s.mutex ≡ owned t 0
      → seen (unlock k t s) ≡ returned tt (free, none)
  unfolding unlock
  unlock-seen t s h =
      released s (k.release_mutex t s.mutex).0 (k.release_mutex t s.mutex).1
        (k.release_code t s.mutex ∙ ap (λ o. (documented_release t o).0) h ∙ ground arith)
      ∙ ap (λ o. returned tt (o, none))
          (k.release_view t s.mutex ∙ ap (λ o. (documented_release t o).1) h ∙ ground arith)

  -- On a mutex whose owner died, where the object does not tell the thread as the last to lock it,
  -- `lock` returns with the mutex, a second `lock` throws, and `unlock` frees the mutex.
  pub lock_abandoned :
      (t : ℕ) (s : Mutex M)
      → is_current s.current_locking_thread t ≡ false
      → k.view s.mutex ≡ abandoned
      → (s₁ : Mutex M) × (s₂ : Mutex M) × (lock k t s ≡ returned tt s₁)
        × (lock k t s₁ ≡ thrown recursive_lock s₁)
        × (unlock k t s₁ ≡ returned tt s₂)
        × (k.view s₂.mutex ≡ free)
  lock_abandoned t s c h = go (seen-returned (lock k t s) tt (owned t 0) (some t) gets)
    where
      gets : seen (lock k t s) ≡ returned tt (owned t 0, some t)
      gets =
          lock_agrees t s (c ∙ ap (λ o. is_owner t o) (sym h))
          ∙ ap (λ o. lock_effect t o s.current_locking_thread) h

      finish :
          (s₁ : Mutex M)
          → lock k t s ≡ returned tt s₁
          → s₁.current_locking_thread ≡ some t
          → ((s₂ : Mutex M) × (unlock k t s₁ ≡ returned tt s₂)
              × (k.view s₂.mutex ≡ free)
              × (s₂.current_locking_thread ≡ none))
          → (s₁ : Mutex M) × (s₂ : Mutex M) × (lock k t s ≡ returned tt s₁)
            × (lock k t s₁ ≡ thrown recursive_lock s₁)
            × (unlock k t s₁ ≡ returned tt s₂)
            × (k.view s₂.mutex ≡ free)
      finish s₁ e cur (s₂, e', v, _) = (s₁, s₂, e, again, e', v)
        where
          itself : (t == t) ≡ true
          itself = ground arith

          again : lock k t s₁ ≡ thrown recursive_lock s₁
          again = unfold lock in rw (cur, itself) refl

      go :
          ((s₁ : Mutex M) × (lock k t s ≡ returned tt s₁)
            × (k.view s₁.mutex ≡ owned t 0)
            × (s₁.current_locking_thread ≡ some t))
          → (s₁ : Mutex M) × (s₂ : Mutex M) × (lock k t s ≡ returned tt s₁)
            × (lock k t s₁ ≡ thrown recursive_lock s₁)
            × (unlock k t s₁ ≡ returned tt s₂)
            × (k.view s₂.mutex ≡ free)
      go (s₁, e, v, cur) =
          finish s₁ e cur (seen-returned (unlock k t s₁) tt free none (unlock-seen t s₁ v))
