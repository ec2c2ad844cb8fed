-- ===== src/Async/Future/Holders.antt =====
-- include/azul/async/Future.hpp: the closures that hold an activator of `WhenAll`, as lists.
use libazul.Base.{ℕ, ◌≡◌, ◌≢◌, refl, true, false, List, [], ◌∷◌, arith}
use libazul.Async.Future.{mem, without, is_empty}

pub mem-without : (h : ℕ) (xs : List ℕ) → mem h (without h xs) ≡ false
mem-without h [] = refl
mem-without h (x ∷ xs) = ground (arith, mem-without h xs)

-- What is not there does not come by taking away.
pub mem-without_of_not_mem :
    (g h : ℕ) (xs : List ℕ) → mem g xs ≡ false → mem g (without h xs) ≡ false
mem-without_of_not_mem g h [] e = refl
mem-without_of_not_mem g h (x ∷ xs) e = ground (arith, mem-without_of_not_mem g h xs)

pub mem-without_of_ne :
    (g h : ℕ) (xs : List ℕ) → g ≢ h → mem g xs ≡ true → mem g (without h xs) ≡ true
mem-without_of_ne g h [] n e = e
mem-without_of_ne g h (x ∷ xs) n e = ground (arith, mem-without_of_ne g h xs n)

pub is_empty_of_mem : (h : ℕ) (xs : List ℕ) → mem h xs ≡ true → is_empty xs ≡ false
is_empty_of_mem h [] e = absurd (cc)
is_empty_of_mem h (x ∷ xs) e = refl

-- A list that is not empty has a first holder.
pub mem_of_not_empty : (xs : List ℕ) → is_empty xs ≡ false → (h : ℕ) × (mem h xs ≡ true)
mem_of_not_empty [] e = absurd (cc)
mem_of_not_empty (x ∷ xs) e = (x, ground arith)

pub mem-cons : (g h : ℕ) (xs : List ℕ) → mem g (h ∷ xs) ≡ true → g ≢ h → mem g xs ≡ true
mem-cons g h xs e n = ground arith

pub mem-cons_of_mem : (g h : ℕ) (xs : List ℕ) → mem g xs ≡ true → mem g (h ∷ xs) ≡ true
mem-cons_of_mem g h xs e = ground arith
