-- ===== src/Compute/Executor/Grid.antt =====
-- include/azul/compute/clcpp/OpenClComputeExecutor.hpp: which indices the kernel sees.
use native.Mathlib.Nat.{
  mod-eq_of_lt, div-eq_of_lt, mul-add-mod_self_right, mul-add-div_right, add-zero, zero-add,
}
use libazul.Base.{
  ℕ, zero, suc, ◌+◌, ◌*◌, ◌/◌, ◌%◌, ◌≤◌, ◌<◌, ◌≡◌, refl, sym, ap, ap₂, ◌∙◌, List, [], ◌++◌, slots,
  slots_ext, slots-append, arith,
}

-- The lists of `f` at `i`, `i + 1`, …, `i + n - 1`, one behind the other.
abbrev pub flat_slots {ℓ} : {A : Type ℓ} → (ℕ → List A) → ℕ → ℕ → List A
flat_slots f i zero = []
flat_slots f i (suc n) = f i ++ flat_slots f (i + 1) n

module _ {ℓ} {A : Type ℓ} where
  pub flat_slots_ext :
      (f g : ℕ → List A) (i n : ℕ)
      → ((k : ℕ) → i ≤ k → k < i + n → f k ≡ g k)
      → flat_slots f i n ≡ flat_slots g i n
  flat_slots_ext f g i zero h = refl
  flat_slots_ext f g i (suc n) h =
      ap₂ ◌++◌ (h i (omega arith) (omega arith))
        (flat_slots_ext f g (i + 1) n (λ k p q. h k (omega arith) (omega arith)))

  -- A range of `h * w` numbers is `h` rows of `w`.
  pub slots-mul :
      (f : ℕ → A) (w i h : ℕ) → slots f (i * w) (h * w) ≡ flat_slots (λ y. slots f (y * w) w) i h
  slots-mul f w i zero = ap (slots f (i * w)) {y = 0} (omega arith)
  slots-mul f w i (suc h) =
      ap (slots f (i * w)) {y = w + h * w} (omega arith)
      ∙ slots-append f (i * w) w (h * w)
      ∙ ap (λ xs. slots f (i * w) w ++ xs)
          (ap (λ k. slots f k (h * w)) {y = (i + 1) * w} (omega arith) ∙ slots-mul f w (i + 1) h)

  pub slots-shift : (f : ℕ → A) (i n : ℕ) → slots f i n ≡ slots (λ k. f (i + k)) 0 n
  slots-shift f i n = slots_ext f (λ k. f (i + k)) i 0 n (λ k h. ap f (omega arith))

-- The work items of a plane, row by row.
abbrev pub plane {ℓ} : {A : Type ℓ} → (ℕ → ℕ → A) → (w h : ℕ) → List A
plane f w h = flat_slots (λ y. slots (λ x. f x y) 0 w) 0 h

abbrev pub volume {ℓ} : {A : Type ℓ} → (ℕ → ℕ → ℕ → A) → (w h d : ℕ) → List A
volume f w h d = flat_slots (λ z. plane (λ x y. f x y z) w h) 0 d

pub row_mod : (w x y : ℕ) → x < w → (y * w + x) % w ≡ x
row_mod w x y h = mul-add-mod_self_right y w x ∙ mod-eq_of_lt h

pub row_div : (w x y : ℕ) → x < w → (y * w + x) / w ≡ y
row_div w x y h =
    mul-add-div_right {m = w} (omega arith) y x ∙ ap (λ k. y + k) (div-eq_of_lt h) ∙ add-zero y

module _ {ℓ} {A : Type ℓ} where
  -- Numbers below `h * w`, row by row.
  slots-rows :
      (g : ℕ → A) (row : ℕ → List A) (w h : ℕ)
      → ((y : ℕ) → slots g (y * w) w ≡ row y)
      → slots g 0 (h * w) ≡ flat_slots row 0 h
  slots-rows g row w h e =
      ap (λ k. slots g k (h * w)) {y = 0 * w} (omega arith)
      ∙ slots-mul g w 0 h
      ∙ flat_slots_ext (λ y. slots g (y * w) w) row 0 h (λ y _ _. e y)

  -- Numbers below `h * w`, taken apart by `%` and `/`, run through the plane.
  pub slots-plane :
      (f : ℕ → ℕ → A) (w h : ℕ) → slots (λ j. f (j % w) (j / w)) 0 (h * w) ≡ plane f w h
  slots-plane f w h =
      slots-rows (λ j. f (j % w) (j / w)) (λ y. slots (λ x. f x y) 0 w) w h
        λ y.
          slots_ext (λ j. f (j % w) (j / w)) (λ x. f x y) (y * w) 0 w
            (λ k lt. ap₂ f (row_mod w k y lt ∙ sym (zero-add k)) (row_div w k y lt))

  layer :
      (f : ℕ → ℕ → ℕ → A) (w h z : ℕ)
      → slots (λ j. f (j % w) (j % (w * h) / w) (j / (w * h))) (z * (w * h)) (w * h)
        ≡ plane (λ x y. f x y z) w h
  layer f w h z =
      slots_ext (λ j. f (j % w) (j % (w * h) / w) (j / (w * h))) (λ j. f (j % w) (j / w) z)
        (z * (w * h)) 0 (w * h) agree
      ∙ ap (slots (λ j. f (j % w) (j / w) z) 0) {y = h * w} (omega arith)
      ∙ slots-plane (λ x y. f x y z) w h
    where
      column : (k : ℕ) → (z * (w * h) + k) % w ≡ k % w
      column k =
          ap (λ n. n % w) {y = z * h * w + k} (omega arith) ∙ mul-add-mod_self_right (z * h) w k

      agree :
          (k : ℕ)
          → k < w * h
          → f
              ((z * (w * h) + k) % w)
              ((z * (w * h) + k) % (w * h) / w)
              ((z * (w * h) + k) / (w * h))
            ≡ f ((0 + k) % w) ((0 + k) / w) z
      agree k lt = rw (zero-add k, row_mod (w * h) k z lt, row_div (w * h) k z lt, column k) refl

  pub slots-volume :
      (f : ℕ → ℕ → ℕ → A) (w h d : ℕ)
      → slots (λ j. f (j % w) (j % (w * h) / w) (j / (w * h))) 0 (d * (w * h)) ≡ volume f w h d
  slots-volume f w h d = slots-rows _ (λ z. plane (λ x y. f x y z) w h) (w * h) d (layer f w h)
