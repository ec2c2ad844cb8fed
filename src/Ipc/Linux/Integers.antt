-- ===== src/Ipc/Linux/Integers.antt =====
-- src/ipc/linux/ConditionVariable.cpp: the signed numbers in which it reckons with times, without
-- bounds, and their parts below and above zero.
use libazul.Base.{
  ℕ, zero, suc, ◌+◌, ◌-◌, ◌*◌, ◌/◌, ◌≤◌, ◌≡◌, ◌⊎◌, refl, ap, Bool, false, ltb, if◌then◌else◌, inl,
  inr, arith,
}

pub data ℤ : Type 0 where
  pos negsuc : ℕ → ℤ

infixl 65 ◌+ℤ◌
infix 50 ◌≤ℤ◌
abbrev pub negate : ℕ → ℤ
negate zero = pos 0
negate (suc n) = negsuc n

abbrev pub minus : ℤ → ℤ
minus (pos n) = negate n
minus (negsuc n) = pos (suc n)

-- The first number less the second.
abbrev pub difference : ℕ → ℕ → ℤ
difference a b = if ltb a b then negsuc (b - a - 1) else pos (a - b)

abbrev pub ◌+ℤ◌ : ℤ → ℤ → ℤ
pos a +ℤ pos b = pos (a + b)
pos a +ℤ negsuc b = difference a (suc b)
negsuc a +ℤ pos b = difference b (suc a)
negsuc a +ℤ negsuc b = negsuc (suc (a + b))

abbrev pub scale : ℤ → ℕ → ℤ
scale (pos n) d = pos (n * d)
scale (negsuc n) d = negate (suc n * d)

-- Division in C++ drops what is after the point.
abbrev pub quotient : ℤ → ℕ → ℤ
quotient (pos n) d = pos (n / d)
quotient (negsuc n) d = negate (suc n / d)

abbrev pub is_above : ℤ → ℕ → Bool
is_above (pos n) d = ltb d n
is_above (negsuc n) d = false

-- A number is what is above zero less what is below; one of them is zero.
abbrev pub above : ℤ → ℕ
above (pos n) = n
above (negsuc n) = 0

abbrev pub below : ℤ → ℕ
below (pos n) = 0
below (negsuc n) = suc n

abbrev pub ◌≤ℤ◌ : ℤ → ℤ → Type 0
a ≤ℤ b = above a + below b ≤ above b + below a

pub one_sign : (z : ℤ) → (above z ≡ 0) ⊎ (below z ≡ 0)
one_sign (pos n) = inr refl
one_sign (negsuc n) = inl refl

pub ℤ-ext : (a b : ℤ) → above a + below b ≡ above b + below a → a ≡ b
ℤ-ext (pos a) (pos b) h = ap pos (omega (arith, h))
ℤ-ext (pos a) (negsuc b) h = absurd (omega (arith, h))
ℤ-ext (negsuc a) (pos b) h = absurd (omega (arith, h))
ℤ-ext (negsuc a) (negsuc b) h = ap negsuc (omega (arith, h))

pub negate-parts : (n : ℕ) → (above (negate n) ≡ 0) × (below (negate n) ≡ n)
negate-parts zero = (refl, refl)
negate-parts (suc n) = (refl, refl)

pub minus-parts : (z : ℤ) → (above (minus z) ≡ below z) × (below (minus z) ≡ above z)
minus-parts (pos n) = negate-parts n
minus-parts (negsuc n) = (refl, refl)

difference-parts : (a b : ℕ) → above (difference a b) + b ≡ below (difference a b) + a
difference-parts a b = ground arith

pub sum-parts : (a b : ℤ) → above (a +ℤ b) + below a + below b ≡ below (a +ℤ b) + above a + above b
sum-parts (pos a) (pos b) = omega arith
sum-parts (pos a) (negsuc b) = omega (arith, difference-parts a (suc b))
sum-parts (negsuc a) (pos b) = omega (arith, difference-parts b (suc a))
sum-parts (negsuc a) (negsuc b) = omega arith

pub scale-parts :
    (z : ℤ) (d : ℕ) → (above (scale z d) ≡ above z * d) × (below (scale z d) ≡ below z * d)
scale-parts (pos n) d = (refl, omega arith)
scale-parts (negsuc n) d = let (a, b) = negate-parts (suc n * d) in (omega (arith, a), b)

pub quotient-parts :
    (z : ℤ) (d : ℕ) → (above (quotient z d) ≡ above z / d) × (below (quotient z d) ≡ below z / d)
quotient-parts (pos n) d = (refl, zero_parts d)
  where
    zero_parts : (d : ℕ) → 0 ≡ 0 / d
    zero_parts d = ground arith
quotient-parts (negsuc n) d = (go (negate-parts (suc n / d)).0, (negate-parts (suc n / d)).1)
  where
    go : above (negate (suc n / d)) ≡ 0 → above (negate (suc n / d)) ≡ 0 / d
    go e = ground (arith, e)
