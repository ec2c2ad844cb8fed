-- ===== src/Ipc/Darwin/RobustMutex/Steps.antt =====
-- src/ipc/darwin/RobustMutex.cpp: every step leaves every thread with what it has.
use libazul.Base.{
  ℕ, ◌≡◌, refl, sym, ap, subst, ◌∙◌, false, List, [], ◌∷◌, Option, none, some, ◌==◌, if◌then◌else◌,
  Bool-cases, inl, inr, ==_iff, arith,
}
use libazul.Ipc.Darwin.System.{
  View, manual, documented_lock, documented_trylock, documented_flock_ex, documented_flock_ex_nb,
  documented_exit, set_local, set_file,
}
use libazul.Ipc.Darwin.RobustMutex.{
  lock_local, lock_file, try_local, try_file, unlock_file, unlock_local, after_mutex_lock,
  after_flock, after_trylock, after_flock_nb, after_flock_un, after_mutex_unlock,
}
use libazul.Ipc.Darwin.RobustMutex.Schedule.{
  Phase, outside, at_file, trying, inside, leaving, World, Event, begins, gets, tries, tests,
  unlocks, releases, dies, move, went, begins_in, gets_in, tries_in, tests_in, unlocks_in,
  releases_in, act, run,
}
use libazul.Ipc.Darwin.RobustMutex.Keeps.{
  Holds, Keeps, ==-refl, Holds-Keeps, taken-Keeps, locked-Keeps, file_given-Keeps,
  local_given-Keeps, exit-Keeps,
}

-- Every thread has what its place asks for.
abbrev pub IsHeld : (ℕ → ℕ) → World View → Type 0
IsHeld process w = (t : ℕ) → Holds w.kernel (process t) t (w.phase t)

module _ (process : ℕ → ℕ) (w : World View) (h : IsHeld process w) where
  move-IsHeld :
      (t : ℕ) (f : Phase) (v : View)
      → Holds v (process t) t f
      → ((u : ℕ) → (t == u) ≡ false → Keeps w.kernel v (process u) u)
      → IsHeld process (move w t f v)
  move-IsHeld t f v n k u = elim (Bool-cases (t == u)) [
    | inl m ↦ let e : t ≡ u = (==_iff t u).0 m in rw m (subst (λ x. Holds v (process x) x f) e n)
    | inr o ↦ rw o (Holds-Keeps (w.phase u) w.kernel v (process u) u (k u o) (h u))
  ]

  back-IsHeld :
      (t : ℕ) (g : Phase) → Holds w.kernel (process t) t g → IsHeld process (move w t g w.kernel)
  back-IsHeld t g n = move-IsHeld t g w.kernel n (λ u d. (λ a. a, λ a b. b))

  begun-IsHeld :
      (t : ℕ) (g : Phase) (o : Option ℕ)
      → Holds w.kernel (process t) t g
      → w.kernel.local (process t) ≡ o
      → IsHeld process (
          went w t
            (λ u. at_file)
            g
            (after_mutex_lock manual
              (process t)
              t
              w.kernel
              (documented_lock (process t) t w.kernel o)))
  unfolding after_mutex_lock
  begun-IsHeld t g none n e =
      move-IsHeld t at_file (set_local w.kernel (process t) (some t)) (ground arith)
        (λ u d. taken-Keeps w.kernel (process t) (process u) t u e)
  begun-IsHeld t g (some x) n e = elim (Bool-cases (t == x)) [
    | inl m ↦ rw m (back-IsHeld t g n)
    | inr d ↦ rw d h
  ]

  got-IsHeld :
      (t : ℕ) (o : Option ℕ)
      → w.kernel.local (process t) ≡ some t
      → w.kernel.file ≡ o
      → IsHeld process (
          went w t
            (λ u. inside)
            outside
            (after_flock manual
              (process t)
              t
              w.kernel
              (documented_flock_ex (process t) w.kernel o)))
  unfolding after_flock
  got-IsHeld t none l e =
      move-IsHeld t inside (set_file w.kernel (some (process t))) (l, refl)
        (λ u d. locked-Keeps w.kernel (process t) (process u) u e)
  got-IsHeld t (some q) l e = elim (Bool-cases (process t == q)) [
    | inl m ↦
        let eq : process t ≡ q = (==_iff (process t) q).0 m in
        rw m (back-IsHeld t inside (l, e ∙ ap some (sym eq)))
    | inr d ↦ rw d h
  ]

  tried-IsHeld :
      (t : ℕ) (g : Phase) (o : Option ℕ)
      → Holds w.kernel (process t) t g
      → w.kernel.local (process t) ≡ o
      → IsHeld process (
          went w t
            (λ b. if b then trying else g)
            g
            (after_trylock manual (process t) t (documented_trylock (process t) t w.kernel o)))
  unfolding after_trylock
  tried-IsHeld t g (some x) n e = back-IsHeld t g n
  tried-IsHeld t g none n e =
      move-IsHeld t trying (set_local w.kernel (process t) (some t)) (ground arith)
        (λ u d. taken-Keeps w.kernel (process t) (process u) t u e)

  tested-IsHeld :
      (t : ℕ) (o : Option ℕ)
      → w.kernel.local (process t) ≡ some t
      → w.kernel.file ≡ o
      → IsHeld process (
          went w t
            (λ b. if b then inside else outside)
            outside
            (after_flock_nb manual (process t) t (documented_flock_ex_nb (process t) w.kernel o)))
  unfolding after_flock_nb
  tested-IsHeld t none l e =
      move-IsHeld t inside (set_file w.kernel (some (process t))) (l, refl)
        (λ u d. locked-Keeps w.kernel (process t) (process u) u e)
  tested-IsHeld t (some q) l e = elim (Bool-cases (process t == q)) [
    | inl m ↦
        let eq : process t ≡ q = (==_iff (process t) q).0 m in
        rw m (back-IsHeld t inside (l, e ∙ ap some (sym eq)))
    | inr d ↦ rw d (back-IsHeld t outside tt)
  ]

  unlocked-IsHeld :
      (t : ℕ)
      → w.kernel.local (process t) ≡ some t
      → w.kernel.file ≡ some (process t)
      → IsHeld process (went w t (λ u. leaving) inside (unlock_file manual (process t) t w.kernel))
  unfolding unlock_file after_flock_un manual
  unlocked-IsHeld t l g =
      rw (g, ==-refl (process t))
        (move-IsHeld t leaving (set_file w.kernel none) l
          (λ u d. file_given-Keeps w.kernel (process t) (process u) t u l g d))

  released-IsHeld :
      (t : ℕ)
      → w.kernel.local (process t) ≡ some t
      → IsHeld process
          (went w t (λ u. outside) outside (unlock_local manual (process t) t w.kernel))
  unfolding unlock_local after_mutex_unlock manual
  released-IsHeld t l =
      rw (l, ==-refl t)
        (move-IsHeld t outside (set_local w.kernel (process t) none) tt
          (λ u d. local_given-Keeps w.kernel (process t) (process u) t u l d))

module _ (process : ℕ → ℕ) where
  begins_in-IsHeld :
      (t : ℕ) (w : World View) (f : Phase)
      → Holds w.kernel (process t) t f
      → IsHeld process w
      → IsHeld process (begins_in manual process t w f)
  unfolding begins_in lock_local manual
  begins_in-IsHeld t w outside l h =
      begun-IsHeld process w h t outside (w.kernel.local (process t)) l refl
  begins_in-IsHeld t w at_file l h = h
  begins_in-IsHeld t w trying l h = h
  begins_in-IsHeld t w inside l h =
      begun-IsHeld process w h t inside (w.kernel.local (process t)) l refl
  begins_in-IsHeld t w leaving l h = h

  gets_in-IsHeld :
      (t : ℕ) (w : World View) (f : Phase)
      → Holds w.kernel (process t) t f
      → IsHeld process w
      → IsHeld process (gets_in manual process t w f)
  unfolding gets_in lock_file manual
  gets_in-IsHeld t w outside l h = h
  gets_in-IsHeld t w at_file l h = got-IsHeld process w h t w.kernel.file l refl
  gets_in-IsHeld t w trying l h = h
  gets_in-IsHeld t w inside l h = h
  gets_in-IsHeld t w leaving l h = h

  tries_in-IsHeld :
      (t : ℕ) (w : World View) (f : Phase)
      → Holds w.kernel (process t) t f
      → IsHeld process w
      → IsHeld process (tries_in manual process t w f)
  unfolding tries_in try_local manual
  tries_in-IsHeld t w outside l h =
      tried-IsHeld process w h t outside (w.kernel.local (process t)) l refl
  tries_in-IsHeld t w at_file l h = h
  tries_in-IsHeld t w trying l h = h
  tries_in-IsHeld t w inside l h =
      tried-IsHeld process w h t inside (w.kernel.local (process t)) l refl
  tries_in-IsHeld t w leaving l h = h

  tests_in-IsHeld :
      (t : ℕ) (w : World View) (f : Phase)
      → Holds w.kernel (process t) t f
      → IsHeld process w
      → IsHeld process (tests_in manual process t w f)
  unfolding tests_in try_file manual
  tests_in-IsHeld t w outside l h = h
  tests_in-IsHeld t w at_file l h = h
  tests_in-IsHeld t w trying l h = tested-IsHeld process w h t w.kernel.file l refl
  tests_in-IsHeld t w inside l h = h
  tests_in-IsHeld t w leaving l h = h

  unlocks_in-IsHeld :
      (t : ℕ) (w : World View) (f : Phase)
      → Holds w.kernel (process t) t f
      → IsHeld process w
      → IsHeld process (unlocks_in manual process t w f)
  unfolding unlocks_in
  unlocks_in-IsHeld t w outside l h = h
  unlocks_in-IsHeld t w at_file l h = h
  unlocks_in-IsHeld t w trying l h = h
  unlocks_in-IsHeld t w inside l h = unlocked-IsHeld process w h t l.0 l.1
  unlocks_in-IsHeld t w leaving l h = h

  releases_in-IsHeld :
      (t : ℕ) (w : World View) (f : Phase)
      → Holds w.kernel (process t) t f
      → IsHeld process w
      → IsHeld process (releases_in manual process t w f)
  unfolding releases_in
  releases_in-IsHeld t w outside l h = h
  releases_in-IsHeld t w at_file l h = h
  releases_in-IsHeld t w trying l h = h
  releases_in-IsHeld t w inside l h = h
  releases_in-IsHeld t w leaving l h = released-IsHeld process w h t l

  -- Every step of a schedule keeps that.
  act-IsHeld :
      (e : Event) (w : World View) → IsHeld process w → IsHeld process (act manual process e w)
  unfolding act manual
  act-IsHeld (begins t) w h = begins_in-IsHeld t w (w.phase t) (h t) h
  act-IsHeld (gets t) w h = gets_in-IsHeld t w (w.phase t) (h t) h
  act-IsHeld (tries t) w h = tries_in-IsHeld t w (w.phase t) (h t) h
  act-IsHeld (tests t) w h = tests_in-IsHeld t w (w.phase t) (h t) h
  act-IsHeld (unlocks t) w h = unlocks_in-IsHeld t w (w.phase t) (h t) h
  act-IsHeld (releases t) w h = releases_in-IsHeld t w (w.phase t) (h t) h
  act-IsHeld (dies q) w h = λ u. elim (Bool-cases (process u == q)) [
    | inl m ↦ rw m tt
    | inr d ↦ rw d (
        Holds-Keeps (w.phase u) w.kernel (documented_exit q w.kernel w.kernel.file) (process u) u
          (exit-Keeps w.kernel q (process u) u w.kernel.file refl d) (h u))
  ]

  pub run-IsHeld :
      (es : List Event) (w : World View)
      → IsHeld process w
      → IsHeld process (run manual process es w)
  run-IsHeld [] w h = h
  run-IsHeld (e ∷ es) w h = run-IsHeld es (act manual process e w) (act-IsHeld e w h)
