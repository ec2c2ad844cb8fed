-- ===== src/Compute/Vectors/Tests.antt =====
-- Runs of the vectors of include/azul/compute/clcpp/OpenClVector.hpp with `std::uint32_t`.
use libazul.Base.{ℕ, ◌*◌, ◌%◌, ◌≡◌, mod32, arith}
use libazul.Compute.Vectors.{uint32}
use libazul.Compute.Vectors.Uint32.{add_mul}
use libazul.Compute.Vectors.Vec4.{
  Vec4, add, sub, mul, mul_assign, value, of_x, of_w, mul_assign-mul,
}

abbrev small : Vec4 ℕ
small = record { x = 1; y = 2; z = 3; w = 4 }

-- Its sum with itself wraps around.
abbrev large : Vec4 ℕ
large = record { x = 4294967295; y = 2147483648; z = 7; w = 0 }

mul_assign-mul_example :
    (mul_assign uint32 small (value 5) ≡ mul uint32 small 5)
    × (mul_assign uint32 small of_w ≡ mul uint32 small 4)
    × (mul_assign uint32 small of_x ≡ record {
      x = (1 * 1) % mod32;
      y = (2 * ((1 * 1) % mod32)) % mod32;
      z = (3 * ((1 * 1) % mod32)) % mod32;
      w = (4 * ((1 * 1) % mod32)) % mod32;
    })
mul_assign-mul_example = mul_assign-mul uint32 small 5

add_mul_example :
    (add uint32 (mul uint32 large 3) (mul uint32 large 4294967295) ≡ mul uint32 large 2)
    × (sub uint32 (mul uint32 large 2) (mul uint32 large 4294967295) ≡ mul uint32 large 3)
add_mul_example = add_mul large 3 4294967295 (omega arith) (omega arith)
