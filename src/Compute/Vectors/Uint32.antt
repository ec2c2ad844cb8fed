-- ===== src/Compute/Vectors/Uint32.antt =====
-- include/azul/compute/clcpp/OpenClVector.hpp: `Vec4` with `std::uint32_t`, whose operators wrap
-- around.
use libazul.Base.{
  ℕ, ◌+◌, ◌-◌, ◌*◌, ◌%◌, ◌<◌, ◌≡◌, refl, sym, ap, ◌∙◌, add32, sub32, mod32, dec_lt, arith,
}
use libazul.Compute.Vectors.{uint32}
use libazul.Compute.Vectors.Vec4.{Vec4, add, sub, mul}

times_sum : (x a b : ℕ) → x * (a + b) ≡ x * a + x * b
times_sum x a b = ground arith

-- The wrap-around of a sum does not show in a product.
mul_add32 :
    (x a b : ℕ)
    → a < mod32
    → b < mod32
    → add32 ((x * a) % mod32) ((x * b) % mod32) ≡ (x * add32 a b) % mod32
mul_add32 x a b h k = elim (dec_lt (a + b) mod32) [
  | yes small ↦
      let e : add32 a b ≡ a + b = omega (arith, small) in rw (e, times_sum x a b) (omega arith)
  | no big ↦
      let e : add32 a b ≡ a + b - mod32 = omega (arith, big, h, k) in
      let f : x * a + x * b ≡ x * (a + b - mod32) + x * mod32 = split (omega (arith, big)) in
      rw e (omega (arith, f))
]
  where
    split : a + b ≡ a + b - mod32 + mod32 → x * a + x * b ≡ x * (a + b - mod32) + x * mod32
    split s = sym (times_sum x a b) ∙ ap (λ n. x * n) s ∙ times_sum x (a + b - mod32) mod32

mul_sub32 :
    (x a b : ℕ)
    → a < mod32
    → b < mod32
    → sub32 ((x * add32 a b) % mod32) ((x * b) % mod32) ≡ (x * a) % mod32
mul_sub32 x a b h k = rw (← mul_add32 x a b h k) (omega arith)

abbrev vector : (x y z w : ℕ) → Vec4 ℕ
vector x y z w = record { x = x; y = y; z = z; w = w }

joined :
    {x y z w x' y' z' w' : ℕ}
    → x ≡ x'
    → y ≡ y'
    → z ≡ z'
    → w ≡ w'
    → vector x y z w ≡ vector x' y' z' w'
joined a b c d = rw (a, b, c, d) refl

-- For any vector of 32-bit numbers and two factors below 2^32, with wrap-around in every operation:
-- the sum of two multiples of the vector is the multiple by the sum of the factors, and when the
-- second multiple is taken away from that the first is left.
pub add_mul :
    (v : Vec4 ℕ) (a b : ℕ)
    → a < mod32
    → b < mod32
    → (add uint32 (mul uint32 v a) (mul uint32 v b) ≡ mul uint32 v ((a + b) % mod32))
      × (sub uint32 (mul uint32 v ((a + b) % mod32)) (mul uint32 v b) ≡ mul uint32 v a)
unfolding add sub mul
add_mul v a b h k = (
  joined (mul_add32 v.x a b h k) (mul_add32 v.y a b h k) (mul_add32 v.z a b h k)
      (mul_add32 v.w a b h k),
  joined (mul_sub32 v.x a b h k) (mul_sub32 v.y a b h k) (mul_sub32 v.z a b h k)
      (mul_sub32 v.w a b h k),
)
