-- ===== src/Ipc/Darwin/RobustMutex/Misuse.antt =====
-- src/ipc/darwin/RobustMutex.cpp: calls that throw and leave one of the two locks changed.
use libazul.Base.{ℕ, ◌≡◌, refl, ap, ◌∙◌, true, false, none, some, ◌==◌, arith}
use libazul.Ipc.Darwin.System.{
  System, View, manual, IsDocumented, flock_minus_1, set_local, set_file,
}
use libazul.Ipc.Darwin.RobustMutex.{
  SyncError, Ran, blocks, returned, thrown, flock_failed, deadlock, not_owned, lock, lock_local,
  lock_file, try_lock, try_local, try_file, then_try_file, unlock, unlock_file, unlock_local,
  then_local, after_mutex_lock, then_file, after_flock, after_trylock, after_flock_nb,
  after_flock_un, after_mutex_unlock,
}
use libazul.Ipc.Darwin.RobustMutex.Refines.{
  seen_ran, lock_refines, try_lock_refines, unlock_refines,
}

thrown-seen :
    {K A : Type 0} (f : K → View) (r : Ran K A) (e : SyncError) (v : View)
    → seen_ran f r ≡ thrown e v
    → (k : K) × (r ≡ thrown e k) × (f k ≡ v)
thrown-seen f (blocks k) e v h = absurd (cc)
thrown-seen f (returned a k) e v h = absurd (cc)
thrown-seen f (thrown x k) e v h = (k, cc, cc)

returned-seen :
    {K A : Type 0} (f : K → View) (r : Ran K A) (a : A) (v : View)
    → seen_ran f r ≡ returned a v
    → (k : K) × (r ≡ returned a k) × (f k ≡ v)
returned-seen f (blocks k) a v h = absurd (cc)
returned-seen f (returned b k) a v h = (k, cc, cc)
returned-seen f (thrown x k) a v h = absurd (cc)

==-refl : (n : ℕ) → (n == n) ≡ true
==-refl n = ground arith

module _ (p t : ℕ) (v : View) where
  try_lock_keeps_local :
      (q : ℕ)
      → v.local p ≡ none
      → v.file ≡ some q
      → (p == q) ≡ false
      → try_lock manual p t v ≡ thrown (flock_failed flock_minus_1) (set_local v p (some t))
  unfolding try_lock try_local try_file then_try_file after_trylock after_flock_nb manual
  try_lock_keeps_local q l f n = rw (l, f, n) refl

  lock_again : v.local p ≡ some t → lock manual p t v ≡ thrown deadlock v
  unfolding lock lock_local after_mutex_lock then_file manual
  lock_again l = rw (l, ==-refl t) refl

  lock_of_other : (u : ℕ) → v.local p ≡ some t → (u == t) ≡ false → lock manual p u v ≡ blocks v
  unfolding lock lock_local after_mutex_lock then_file manual
  lock_of_other u l n = rw (l, n) refl

  lock_of_free :
      v.local p ≡ none
      → v.file ≡ none
      → lock manual p t v ≡ returned tt (set_file (set_local v p (some t)) (some p))
  unfolding lock lock_local lock_file after_mutex_lock after_flock then_file manual
  lock_of_free l f = rw (l, f) refl

  unlock_of_other :
      (u : ℕ)
      → v.local p ≡ some u
      → v.file ≡ some p
      → (t == u) ≡ false
      → unlock manual p t v ≡ thrown not_owned (set_file v none)
  unfolding unlock unlock_file unlock_local then_local after_flock_un after_mutex_unlock manual
  unlock_of_other u l f n = rw (f, ==-refl p, l, n) refl

  exit_keeps :
      (q : ℕ)
      → v.local p ≡ some t
      → v.file ≡ some q
      → (p == q) ≡ false
      → (manual.exit q v).local p ≡ some t
  unfolding manual
  exit_keeps q l f n = let o : (q == p) ≡ false = ground arith in rw (f, ==-refl q, o) l

module _ {K : Type 0} (s : System K) (d : IsDocumented s) (p q t u : ℕ) where
  -- Over a system that does what the manuals say: while another process has the file, `try_lock` of
  -- a free mutex throws, and the thread has the mutex of its process from then on. When the other
  -- process has died, a `lock` of the thread throws, and one of another thread of the process blocks.
  pub try_lock-sticks :
      (k : K)
      → (d.view k).local p ≡ none
      → (d.view k).file ≡ some q
      → (p == q) ≡ false
      → (u == t) ≡ false
      → (k₁ : K) × (try_lock s p t k ≡ thrown (flock_failed flock_minus_1) k₁)
        × (seen_ran d.view (lock s p t (s.exit q k₁)) ≡ thrown deadlock (d.view (s.exit q k₁)))
        × (seen_ran d.view (lock s p u (s.exit q k₁)) ≡ blocks (d.view (s.exit q k₁)))
  try_lock-sticks k l f n m = go (
      thrown-seen d.view (try_lock s p t k) _ _
        (try_lock_refines s d p t k ∙ try_lock_keeps_local p t (d.view k) q l f n))
    where
      stuck :
          (k₁ : K)
          → d.view k₁ ≡ set_local (d.view k) p (some t)
          → (d.view (s.exit q k₁)).local p ≡ some t
      stuck k₁ e =
          rw (d.exit_law q k₁, e)
            (exit_keeps p t (set_local (d.view k) p (some t)) q (ground arith) f n)

      go :
          (k₁ : K) × (try_lock s p t k ≡ thrown (flock_failed flock_minus_1) k₁)
            × (d.view k₁ ≡ set_local (d.view k) p (some t))
          → (k₁ : K) × (try_lock s p t k ≡ thrown (flock_failed flock_minus_1) k₁)
            × (seen_ran d.view (lock s p t (s.exit q k₁)) ≡ thrown deadlock (d.view (s.exit q k₁)))
            × (seen_ran d.view (lock s p u (s.exit q k₁)) ≡ blocks (d.view (s.exit q k₁)))
      go (k₁, e, v) = (
        k₁,
        e,
        lock_refines s d p t (s.exit q k₁) ∙ lock_again p t (d.view (s.exit q k₁)) (stuck k₁ v),
        lock_refines s d p u (s.exit q k₁)
            ∙ lock_of_other p t (d.view (s.exit q k₁)) u (stuck k₁ v) m,
      )

  -- Over a system that does what the manuals say: when another thread of the process of `t`, which
  -- is inside, calls `unlock`, that call throws but gives up the file, and a thread of a second
  -- process gets in at once, while `t` still has the mutex of its process.
  pub unlock-admits :
      (x : ℕ) (k : K)
      → (d.view k).local p ≡ some t
      → (d.view k).file ≡ some p
      → (d.view k).local q ≡ none
      → (u == t) ≡ false
      → (p == q) ≡ false
      → (k₁ : K) × (k₂ : K) × (unlock s p u k ≡ thrown not_owned k₁)
        × (lock s q x k₁ ≡ returned tt k₂)
        × ((d.view k₂).local p ≡ some t)
        × ((d.view k₂).local q ≡ some x)
        × ((d.view k₂).file ≡ some q)
  unlock-admits x k l f lq n m = first (
      thrown-seen d.view (unlock s p u k) _ _
        (unlock_refines s d p u k ∙ unlock_of_other p u (d.view k) t l f n))
    where
      v₁ : View
      v₁ = set_file (d.view k) none

      v₂ : View
      v₂ = set_file (set_local v₁ q (some x)) (some q)

      second :
          (k₁ : K)
          → unlock s p u k ≡ thrown not_owned k₁
          → (k₂ : K) × (lock s q x k₁ ≡ returned tt k₂) × (d.view k₂ ≡ v₂)
          → (k₁ : K) × (k₂ : K) × (unlock s p u k ≡ thrown not_owned k₁)
            × (lock s q x k₁ ≡ returned tt k₂)
            × ((d.view k₂).local p ≡ some t)
            × ((d.view k₂).local q ≡ some x)
            × ((d.view k₂).file ≡ some q)
      second k₁ e (k₂, e', v) = (
        k₁,
        k₂,
        e,
        e',
        rw v (let o : (q == p) ≡ false = ground arith in rw o l),
        rw v (ground arith),
        rw v refl,
      )

      first :
          (k₁ : K) × (unlock s p u k ≡ thrown not_owned k₁) × (d.view k₁ ≡ v₁)
          → (k₁ : K) × (k₂ : K) × (unlock s p u k ≡ thrown not_owned k₁)
            × (lock s q x k₁ ≡ returned tt k₂)
            × ((d.view k₂).local p ≡ some t)
            × ((d.view k₂).local q ≡ some x)
            × ((d.view k₂).file ≡ some q)
      first (k₁, e, v) = second k₁ e (
          returned-seen d.view (lock s q x k₁) tt v₂
            (lock_refines s d q x k₁ ∙ ap (lock manual q x) v ∙ lock_of_free q x v₁ lq refl))
