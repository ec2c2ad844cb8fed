-- ===== src/Ipc/Queue/Ring.antt =====
-- src/ipc/Queue.hpp: the index arithmetic of the ring, with and without the wrap-around of
-- `std::uint32_t`.
use native.Mathlib.Nat.{add-mod_right, mod-eq_of_lt, mod-eq-sub-mod, mod-add-div}
use libazul.Base.{
  ℕ, ◌+◌, ◌-◌, ◌*◌, ◌/◌, ◌%◌, ◌≤◌, ◌<◌, ◌≡◌, ◌≢◌, ◌⊎◌, inl, inr, ◌∙◌, ap, mod32, add32, sub32,
  arith, dec_lt,
}

-- `(x + i + s) % s` in 32 bits is the plain remainder.
pub wrap_add : (x i s : ℕ) → x < s → i ≤ s → 3 * s ≤ mod32 → add32 (add32 x i) s % s ≡ (x + i) % s
wrap_add x i s h k b = ap (λ n. n % s) {y = x + i + s} (omega arith) ∙ add-mod_right (x + i) s

-- So is `(x - 1 + s) % s`, where the first step may go below 0.
pub wrap_sub : (x s : ℕ) → x < s → 3 * s ≤ mod32 → add32 (sub32 x 1) s % s ≡ (x + s - 1) % s
wrap_sub x s h b = ap (λ n. n % s) (omega arith)

pub wrap_sub' : (x s : ℕ) → x < s → 3 * s ≤ mod32 → sub32 (add32 x s) 1 % s ≡ (x + s - 1) % s
wrap_sub' x s h b = ap (λ n. n % s) (omega arith)

-- A remainder of a number below twice the divisor.
pub mod_cases : (x s : ℕ) → x < 2 * s → ((x < s) × (x % s ≡ x)) ⊎ ((s ≤ x) × (x % s ≡ x - s))
mod_cases x s h = elim (dec_lt x s) [
  | yes p ↦ inl (p, mod-eq_of_lt p)
  | no p ↦ inr (
    omega arith,
    mod-eq-sub-mod {n = x} {m = s} (omega arith) ∙ mod-eq_of_lt {n = x - s} {m = s} (omega arith),
  )
]

-- One step back from the end of `n` items is the last of them.
pub step_back : (r n s : ℕ) → r < s → 0 < n → n ≤ s → ((r + n) % s + s - 1) % s ≡ (r + (n - 1)) % s
step_back r n s h p k = omega (
  arith,
  mod_cases (r + n) s (omega arith),
  mod_cases ((r + n) % s + s - 1) s (omega (arith, mod_cases (r + n) s (omega arith))),
  mod_cases (r + (n - 1)) s (omega arith),
)

-- Fewer than `s` steps round the ring do not come back to the start.
pub ring_ne : (r i j s : ℕ) → r < s → i < j → j < s → (r + i) % s ≢ (r + j) % s
ring_ne r i j s h p q =
    omega (arith, mod_cases (r + i) s (omega arith), mod_cases (r + j) s (omega arith))

pub three-div-le : (n k : ℕ) → 3 ≤ k → 3 * (n / k) ≤ n
three-div-le n k h = grind (arith, mod-add-div n k)

pub div_pos : (n k : ℕ) → 0 < k → k ≤ n → 0 < n / k
div_pos n k h p = grind (arith, mod-add-div n k)

-- The `p`-th of `n / k` blocks of `k` bytes ends within the `n` bytes.
pub block_fits : (n k p : ℕ) → p < n / k → p * k + k ≤ n
block_fits n k p h = grind (arith, mod-add-div n k)
