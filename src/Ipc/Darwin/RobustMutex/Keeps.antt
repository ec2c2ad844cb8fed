-- ===== src/Ipc/Darwin/RobustMutex/Keeps.antt =====
-- src/ipc/darwin/RobustMutex.cpp: what each step leaves to the other threads.
use libazul.Base.{
  ℕ, ◌≡◌, ◌∙◌, true, false, Option, none, some, ◌==◌, Bool-cases, inl, inr, ==_iff, arith,
}
use libazul.Ipc.Darwin.System.{View, documented_exit, set_local, set_file}
use libazul.Ipc.Darwin.RobustMutex.Schedule.{Phase, outside, at_file, trying, inside, leaving}

pub ==-refl : (n : ℕ) → (n == n) ≡ true
==-refl n = ground arith

not_itself : (p : ℕ) → (p == p) ≡ false → ⊥
not_itself p n = ground arith

-- What a thread of the process `p` has: in a member the mutex of the process, inside the file too.
abbrev pub Holds : View → (p t : ℕ) → Phase → Type 0
Holds v p t outside = Unit
Holds v p t at_file = v.local p ≡ some t
Holds v p t trying = v.local p ≡ some t
Holds v p t leaving = v.local p ≡ some t
Holds v p t inside = (v.local p ≡ some t) × (v.file ≡ some p)

-- What the thread had it still has.
abbrev pub Keeps : View → View → (p t : ℕ) → Type 0
Keeps v v' p t =
    (v.local p ≡ some t → v'.local p ≡ some t)
    × (v.local p ≡ some t → v.file ≡ some p → v'.file ≡ some p)

pub Holds-Keeps :
    (f : Phase) (v v' : View) (p t : ℕ) → Keeps v v' p t → Holds v p t f → Holds v' p t f
Holds-Keeps outside v v' p t k h = tt
Holds-Keeps at_file v v' p t k h = k.0 h
Holds-Keeps trying v v' p t k h = k.0 h
Holds-Keeps leaving v v' p t k h = k.0 h
Holds-Keeps inside v v' p t k (l, f) = (k.0 l, k.1 l f)

-- A mutex that nobody had is taken.
pub taken-Keeps : (v : View) (p q t u : ℕ) → v.local p ≡ none → Keeps v (set_local v p (some t)) q u
taken-Keeps v p q t u n = (
  λ h. elim (Bool-cases (p == q)) [
    | inl m ↦
        let e : p ≡ q = (==_iff p q).0 m in let n' : v.local q ≡ none = rw (← e) n in absurd (cc)
    | inr o ↦ rw o h
  ],
  λ h f. f,
)

pub locked-Keeps : (v : View) (p q u : ℕ) → v.file ≡ none → Keeps v (set_file v (some p)) q u
locked-Keeps v p q u n = (λ h. h, λ h f. absurd (cc))

-- Another thread has not the mutex that `t` has.
apart :
    (v : View) (p q t u : ℕ)
    → v.local p ≡ some t
    → (t == u) ≡ false
    → (p == q) ≡ true
    → v.local q ≡ some u
    → ⊥
apart v p q t u l d m h =
    let e : p ≡ q = (==_iff p q).0 m in
    let l' : v.local q ≡ some t = rw (← e) l in let same : t ≡ u = cc in not_itself u (rw same at d)

-- Who has both gives up the file; another thread had neither.
pub file_given-Keeps :
    (v : View) (p q t u : ℕ)
    → v.local p ≡ some t
    → v.file ≡ some p
    → (t == u) ≡ false
    → Keeps v (set_file v none) q u
file_given-Keeps v p q t u l g d = (
  λ h. h,
  λ h f.
      let e : p ≡ q = cc in
      let m : (p == q) ≡ true = (==_iff p q).1 e in absurd (apart v p q t u l d m h),
)

-- Who has the mutex of the process gives it up; another thread had it not.
pub local_given-Keeps :
    (v : View) (p q t u : ℕ)
    → v.local p ≡ some t
    → (t == u) ≡ false
    → Keeps v (set_local v p none) q u
local_given-Keeps v p q t u l d = (
  λ h. elim (Bool-cases (p == q)) [ inl m ↦ absurd (apart v p q t u l d m h) | inr o ↦ rw o h ],
  λ h f. f,
)

pub exit-Keeps :
    (v : View) (q p u : ℕ) (o : Option ℕ)
    → v.file ≡ o
    → (p == q) ≡ false
    → Keeps v (documented_exit q v o) p u
exit-Keeps v q p u none e d = (λ h. let n : (q == p) ≡ false = ground arith in rw n h, λ h f. f)
exit-Keeps v q p u (some r) e d = elim (Bool-cases (q == r)) [
  | inl m ↦ rw m (
    λ h. let n : (q == p) ≡ false = ground arith in rw n h,
    λ h f.
        let e' : r ≡ p = cc in
        let m' : q ≡ r = (==_iff q r).0 m in
        let n : (p == p) ≡ false = rw (m' ∙ e') at d in absurd (not_itself p n),
  )
  | inr o ↦ rw o (λ h. let n : (q == p) ≡ false = ground arith in rw n h, λ h f. f)
]
