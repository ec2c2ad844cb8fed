-- ===== src/Ipc/Darwin/RobustMutex/Seen.antt =====
-- src/ipc/darwin/RobustMutex.cpp: the steps of a schedule over a system that does what the manuals
-- say.
use libazul.Base.{ℕ, ◌≡◌, refl, ap, ◌∙◌, List, [], ◌∷◌, if◌then◌else◌}
use libazul.Ipc.Darwin.System.{System, View, manual, IsDocumented}
use libazul.Ipc.Darwin.RobustMutex.{
  Ran, blocks, returned, thrown, lock_local, lock_file, try_local, try_file, unlock_file,
  unlock_local,
}
use libazul.Ipc.Darwin.RobustMutex.Refines.{
  seen_ran, lock_local_refines, lock_file_refines, try_local_refines, try_file_refines,
  unlock_file_refines, unlock_local_refines,
}
use libazul.Ipc.Darwin.RobustMutex.Schedule.{
  Phase, outside, at_file, trying, inside, leaving, World, Event, begins, gets, tries, tests,
  unlocks, releases, dies, went, begins_in, gets_in, tries_in, tests_in, unlocks_in, releases_in,
  act, run,
}

module _ {K : Type 0} (s : System K) (d : IsDocumented s) (process : ℕ → ℕ) where
  abbrev pub seen_world : World K → World View
  seen_world w = record { kernel = d.view w.kernel; phase = w.phase }

  went-seen :
      {A : Type 0} (w : World K) (t : ℕ) (f : A → Phase) (g : Phase) (r : Ran K A)
      → seen_world (went w t f g r) ≡ went (seen_world w) t f g (seen_ran d.view r)
  went-seen w t f g (blocks k) = refl
  went-seen w t f g (returned a k) = refl
  went-seen w t f g (thrown e k) = refl

  begins_in-seen :
      (t : ℕ) (w : World K) (f : Phase)
      → seen_world (begins_in s process t w f) ≡ begins_in manual process t (seen_world w) f
  unfolding begins_in
  begins_in-seen t w outside =
      went-seen w t (λ u. at_file) outside (lock_local s (process t) t w.kernel)
      ∙ ap (went (seen_world w) t (λ u. at_file) outside)
          (lock_local_refines s d (process t) t w.kernel)
  begins_in-seen t w at_file = refl
  begins_in-seen t w trying = refl
  begins_in-seen t w inside =
      went-seen w t (λ u. at_file) inside (lock_local s (process t) t w.kernel)
      ∙ ap (went (seen_world w) t (λ u. at_file) inside)
          (lock_local_refines s d (process t) t w.kernel)
  begins_in-seen t w leaving = refl

  gets_in-seen :
      (t : ℕ) (w : World K) (f : Phase)
      → seen_world (gets_in s process t w f) ≡ gets_in manual process t (seen_world w) f
  unfolding gets_in
  gets_in-seen t w outside = refl
  gets_in-seen t w at_file =
      went-seen w t (λ u. inside) outside (lock_file s (process t) t w.kernel)
      ∙ ap (went (seen_world w) t (λ u. inside) outside)
          (lock_file_refines s d (process t) t w.kernel)
  gets_in-seen t w trying = refl
  gets_in-seen t w inside = refl
  gets_in-seen t w leaving = refl

  tries_in-seen :
      (t : ℕ) (w : World K) (f : Phase)
      → seen_world (tries_in s process t w f) ≡ tries_in manual process t (seen_world w) f
  unfolding tries_in
  tries_in-seen t w outside =
      went-seen w t (λ b. if b then trying else outside) outside
        (try_local s (process t) t w.kernel)
      ∙ ap (went (seen_world w) t (λ b. if b then trying else outside) outside)
          (try_local_refines s d (process t) t w.kernel)
  tries_in-seen t w at_file = refl
  tries_in-seen t w trying = refl
  tries_in-seen t w inside =
      went-seen w t (λ b. if b then trying else inside) inside (try_local s (process t) t w.kernel)
      ∙ ap (went (seen_world w) t (λ b. if b then trying else inside) inside)
          (try_local_refines s d (process t) t w.kernel)
  tries_in-seen t w leaving = refl

  tests_in-seen :
      (t : ℕ) (w : World K) (f : Phase)
      → seen_world (tests_in s process t w f) ≡ tests_in manual process t (seen_world w) f
  unfolding tests_in
  tests_in-seen t w outside = refl
  tests_in-seen t w at_file = refl
  tests_in-seen t w trying =
      went-seen w t (λ b. if b then inside else outside) outside (try_file s (process t) t w.kernel)
      ∙ ap (went (seen_world w) t (λ b. if b then inside else outside) outside)
          (try_file_refines s d (process t) t w.kernel)
  tests_in-seen t w inside = refl
  tests_in-seen t w leaving = refl

  unlocks_in-seen :
      (t : ℕ) (w : World K) (f : Phase)
      → seen_world (unlocks_in s process t w f) ≡ unlocks_in manual process t (seen_world w) f
  unfolding unlocks_in
  unlocks_in-seen t w outside = refl
  unlocks_in-seen t w at_file = refl
  unlocks_in-seen t w trying = refl
  unlocks_in-seen t w inside =
      went-seen w t (λ u. leaving) inside (unlock_file s (process t) t w.kernel)
      ∙ ap (went (seen_world w) t (λ u. leaving) inside)
          (unlock_file_refines s d (process t) t w.kernel)
  unlocks_in-seen t w leaving = refl

  releases_in-seen :
      (t : ℕ) (w : World K) (f : Phase)
      → seen_world (releases_in s process t w f) ≡ releases_in manual process t (seen_world w) f
  unfolding releases_in
  releases_in-seen t w outside = refl
  releases_in-seen t w at_file = refl
  releases_in-seen t w trying = refl
  releases_in-seen t w inside = refl
  releases_in-seen t w leaving =
      went-seen w t (λ u. outside) outside (unlock_local s (process t) t w.kernel)
      ∙ ap (went (seen_world w) t (λ u. outside) outside)
          (unlock_local_refines s d (process t) t w.kernel)

  act-seen :
      (e : Event) (w : World K)
      → seen_world (act s process e w) ≡ act manual process e (seen_world w)
  unfolding act
  act-seen (begins t) w = begins_in-seen t w (w.phase t)
  act-seen (gets t) w = gets_in-seen t w (w.phase t)
  act-seen (tries t) w = tries_in-seen t w (w.phase t)
  act-seen (tests t) w = tests_in-seen t w (w.phase t)
  act-seen (unlocks t) w = unlocks_in-seen t w (w.phase t)
  act-seen (releases t) w = releases_in-seen t w (w.phase t)
  act-seen (dies q) w = rw (d.exit_law q w.kernel) refl

  pub run-seen :
      (es : List Event) (w : World K)
      → seen_world (run s process es w) ≡ run manual process es (seen_world w)
  run-seen [] w = refl
  run-seen (e ∷ es) w = run-seen es (act s process e w) ∙ ap (run manual process es) (act-seen e w)
