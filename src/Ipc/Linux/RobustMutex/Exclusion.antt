-- ===== src/Ipc/Linux/RobustMutex/Exclusion.antt =====
-- src/ipc/linux/RobustMutex.hpp under any schedule of threads that call its members, and die.
use libazul.Base.{
  ℕ, ◌≡◌, sym, ap, subst, ◌∙◌, Bool, true, false, List, [], ◌∷◌, ◌==◌, update, Bool-cases, inl, inr,
  ==_iff,
}
use libazul.Ipc.Linux.Pthread.{held, Pthread}
use libazul.Ipc.Linux.RobustMutex.{Ran, blocks, returned, thrown, lock, try_lock, unlock}
use libazul.Ipc.Linux.RobustMutex.Calls.{
  lock_effect, try_lock_effect, unlock_effect, seen, lock_refines, try_lock_refines, unlock_refines,
}
use libazul.Ipc.Linux.RobustMutex.Effects.{
  Others, lock_returns, lock_throws, try_lock_gets, try_lock_leaves, try_lock_throws,
  unlock_returns, unlock_throws, death-Others,
}

-- The mutex, and which threads are inside: their last call that got it has returned.
pub record World (M : Type 0) : Type 0 where
  pub mutex : M
  pub inside : ℕ → Bool

-- A call by a thread, or its death.
pub data Event : Type 0 where
  locks tries unlocks dies : ℕ → Event

abbrev pub enter : {M : Type 0} → World M → ℕ → M → World M
enter w t m = record { mutex = m; inside = update w.inside t true }

abbrev pub leave : {M : Type 0} → World M → ℕ → M → World M
leave w t m = record { mutex = m; inside = update w.inside t false }

abbrev pub locked : {M : Type 0} → World M → ℕ → Ran M Unit → World M
locked w t blocks = w
locked w t (returned u m) = enter w t m
locked w t (thrown e m) = record w { mutex = m }

abbrev pub tried : {M : Type 0} → World M → ℕ → Ran M Bool → World M
tried w t blocks = w
tried w t (returned true m) = enter w t m
tried w t (returned false m) = record w { mutex = m }
tried w t (thrown e m) = record w { mutex = m }

abbrev pub unlocked : {M : Type 0} → World M → ℕ → Ran M Unit → World M
unlocked w t blocks = w
unlocked w t (returned u m) = leave w t m
unlocked w t (thrown e m) = record w { mutex = m }

module _ {M : Type 0} (p : Pthread M) where
  unfoldable pub act : Event → World M → World M
  act (locks t) w = locked w t (lock p t w.mutex)
  act (tries t) w = tried w t (try_lock p t w.mutex)
  act (unlocks t) w = unlocked w t (unlock p t w.mutex)
  act (dies t) w = leave w t (p.death t w.mutex)

  abbrev pub run : List Event → World M → World M
  run [] w = w
  run (e ∷ es) w = run es (act e w)

  -- A thread inside has the mutex.
  abbrev pub Owners : World M → Type 0
  Owners w = (t : ℕ) → w.inside t ≡ true → p.view w.mutex ≡ held t

  enter-Owners :
      (w : World M) (t : ℕ) (m : M)
      → Owners w
      → p.view m ≡ held t
      → Others t (p.view w.mutex) (p.view m)
      → Owners (enter w t m)
  enter-Owners w t m o v k u i = elim (Bool-cases (t == u)) [
    | inl same ↦ v ∙ ap held ((==_iff t u).0 same)
    | inr other ↦ k u other (o u (rw other at i))
  ]

  leave-Owners :
      (w : World M) (t : ℕ) (m : M)
      → Owners w
      → Others t (p.view w.mutex) (p.view m)
      → Owners (leave w t m)
  leave-Owners w t m o k u i = elim (Bool-cases (t == u)) [
    | inl same ↦ let f : _ = rw same at i in absurd (cc)
    | inr other ↦ k u other (o u (rw other at i))
  ]

  locked-Owners :
      (w : World M) (t : ℕ) (r : Ran M Unit)
      → seen p r ≡ lock_effect t (p.view w.mutex)
      → Owners w
      → Owners (locked w t r)
  locked-Owners w t blocks h o = o
  locked-Owners w t (returned u m) h o =
      let (v, k) = lock_returns t u (p.view w.mutex) (p.view m) (sym h) in enter-Owners w t m o v k
  locked-Owners w t (thrown e m) h o =
      λ u i. lock_throws t e (p.view w.mutex) (p.view m) (sym h) ∙ o u i

  tried-Owners :
      (w : World M) (t : ℕ) (r : Ran M Bool)
      → seen p r ≡ try_lock_effect t (p.view w.mutex)
      → Owners w
      → Owners (tried w t r)
  tried-Owners w t blocks h o = o
  tried-Owners w t (returned true m) h o =
      let (v, k) = try_lock_gets t (p.view w.mutex) (p.view m) (sym h) in enter-Owners w t m o v k
  tried-Owners w t (returned false m) h o =
      λ u i. try_lock_leaves t (p.view w.mutex) (p.view m) (sym h) ∙ o u i
  tried-Owners w t (thrown e m) h o =
      λ u i. try_lock_throws t u e (p.view w.mutex) (p.view m) (sym h) (o u i)

  unlocked-Owners :
      (w : World M) (t : ℕ) (r : Ran M Unit)
      → seen p r ≡ unlock_effect t (p.view w.mutex)
      → Owners w
      → Owners (unlocked w t r)
  unlocked-Owners w t blocks h o = o
  unlocked-Owners w t (returned u m) h o =
      leave-Owners w t m o (unlock_returns t u (p.view w.mutex) (p.view m) (sym h))
  unlocked-Owners w t (thrown e m) h o =
      λ u i. unlock_throws t e (p.view w.mutex) (p.view m) (sym h) ∙ o u i

  act-Owners : (e : Event) (w : World M) → Owners w → Owners (act e w)
  unfolding act
  act-Owners (locks t) w o = locked-Owners w t (lock p t w.mutex) (lock_refines p t w.mutex) o
  act-Owners (tries t) w o =
      tried-Owners w t (try_lock p t w.mutex) (try_lock_refines p t w.mutex) o
  act-Owners (unlocks t) w o =
      unlocked-Owners w t (unlock p t w.mutex) (unlock_refines p t w.mutex) o
  act-Owners (dies t) w o = leave-Owners w t (p.death t w.mutex) o (
      subst (Others t (p.view w.mutex)) (sym (p.death_law t w.mutex))
        (death-Others t (p.view w.mutex)))

  run-Owners : (es : List Event) (w : World M) → Owners w → Owners (run es w)
  run-Owners [] w o = o
  run-Owners (e ∷ es) w o = run-Owners es (act e w) (act-Owners e w o)

  -- Nobody is inside at first. After any calls by any threads, and deaths of threads anywhere
  -- between them, at most one thread is inside.
  pub mutual_exclusion :
      (es : List Event) (w : World M)
      → ((t : ℕ) → w.inside t ≡ false)
      → (t u : ℕ) → (run es w).inside t ≡ true
      → (run es w).inside u ≡ true
      → t ≡ u
  mutual_exclusion es w nobody t u i j = cc (first, second)
    where
      owners : Owners (run es w)
      owners = run-Owners es w (λ v k. let f : _ = nobody v in absurd (cc))

      first : p.view (run es w).mutex ≡ held t
      first = owners t i

      second : p.view (run es w).mutex ≡ held u
      second = owners u j
