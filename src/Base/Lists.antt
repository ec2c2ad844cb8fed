-- ===== src/Base/Lists.antt =====
-- Lists measured and indexed by native numbers, under the library's names.
use Prim.Native.Nat.{ℕ, zero, suc, ◌+◌, ◌-◌, ◌<◌}
use mathlib.Core.Path.{◌≡◌, refl, ap, ap₂, ◌∙◌}
use mathlib.Core.List.{List, [], ◌∷◌, ◌++◌}
use native.Mathlib.Omega.{arith}
use libazul.Base.Tests.{◌==◌, if◌then◌else◌}

module _ {ℓ} {A : Type ℓ} where
  abbrev pub length : List A → ℕ
  length [] = 0
  length (x ∷ xs) = suc (length xs)

  pub length-append : (xs ys : List A) → length (xs ++ ys) ≡ length xs + length ys
  length-append [] ys = omega arith
  length-append (x ∷ xs) ys = omega (arith, length-append xs ys)

  -- The values of `f` at `i`, `i + 1`, …, `i + n - 1`.
  abbrev pub slots : (ℕ → A) → ℕ → ℕ → List A
  slots f i zero = []
  slots f i (suc n) = f i ∷ slots f (i + 1) n

  pub length-slots : (f : ℕ → A) (i n : ℕ) → length (slots f i n) ≡ n
  length-slots f i zero = refl
  length-slots f i (suc n) = ap suc (length-slots f (i + 1) n)

  -- Two windows are equal where their values agree.
  pub slots_ext :
      (f g : ℕ → A) (i j n : ℕ)
      → ((k : ℕ) → k < n → f (i + k) ≡ g (j + k))
      → slots f i n ≡ slots g j n
  slots_ext f g i j zero h = refl
  slots_ext f g i j (suc n) h = ap₂ ◌∷◌ first (slots_ext f g (i + 1) (j + 1) n rest)
    where
      first : f i ≡ g j
      first = ground (arith, h 0)

      rest : (k : ℕ) → k < n → f (i + 1 + k) ≡ g (j + 1 + k)
      rest k p = ground (arith, h (k + 1))

  -- A window, cut at its last value.
  pub slots-snoc : (f : ℕ → A) (i n : ℕ) → slots f i (suc n) ≡ slots f i n ++ f (i + n) ∷ []
  slots-snoc f i zero = ap (λ k. f k ∷ []) (omega arith)
  slots-snoc f i (suc n) =
      ap (λ xs. f i ∷ xs)
        (slots-snoc f (i + 1) n ∙ ap (λ k. slots f (i + 1) n ++ f k ∷ []) (omega arith))

  pub slots_first : (f : ℕ → A) (i n : ℕ) → 0 < n → slots f i n ≡ f i ∷ slots f (i + 1) (n - 1)
  slots_first f i n h = ap (slots f i) {y = suc (n - 1)} (omega arith)

  pub slots_last :
      (f : ℕ → A) (i n : ℕ) → 0 < n → slots f i n ≡ slots f i (n - 1) ++ f (i + (n - 1)) ∷ []
  slots_last f i n h = ap (slots f i) {y = suc (n - 1)} (omega arith) ∙ slots-snoc f i (n - 1)

  -- A window, cut at any place.
  pub slots-append : (f : ℕ → A) (i m n : ℕ) → slots f i (m + n) ≡ slots f i m ++ slots f (i + m) n
  slots-append f i zero n = ap₂ (slots f) (omega arith) (omega arith)
  slots-append f i (suc m) n =
      shift
      ∙ ap (λ xs. f i ∷ xs)
          (slots-append f (i + 1) m n
            ∙ ap (λ k. slots f (i + 1) m ++ slots f k n) {y = i + suc m} (omega arith))
    where
      shift : slots f i (suc m + n) ≡ slots f i (suc (m + n))
      shift = ap (slots f i) {y = suc (m + n)} (omega arith)

  -- One place of a function changed.
  abbrev pub update : (ℕ → A) → ℕ → A → ℕ → A
  update f p v q = if p == q then v else f q

-- Every element of a list has a property.
abbrev pub All {ℓ κ} : {A : Type ℓ} → (A → Type κ) → List A → Type κ
All P [] = Unit
All P (x ∷ xs) = P x × All P xs
