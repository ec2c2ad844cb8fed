-- ===== src/Compute/Vectors.antt =====
-- include/azul/compute/clcpp/OpenClVector.hpp: the type of the components, a parameter of the
-- templates, as an interface.
pub mod Vec2
pub mod Vec4
pub mod Uint32
mod Tests
use libazul.Base.{
  ℕ, ◌*◌, ◌/◌, ◌%◌, ◌<◌, ◌≡◌, Bool, true, ◌↔◌, add32, sub32, mod32, ◌==◌, ==_iff, arith,
}

-- A scalar with its operators.
pub record Scalar (T : Type 0) : Type 0 where
  pub zero : T
  pub add : T → T → T
  pub sub : T → T → T
  pub mul : T → T → T
  pub div : T → T → T
  pub equals : T → T → Bool

-- The operator `==` of the scalar tells whether two scalars are the same, as for integers.
pub record IsExact {T : Type 0} (s : Scalar T) : Type 0 where
  pub exact : (a b : T) → (s.equals a b ≡ true) ↔ (a ≡ b)

-- `std::uint32_t`
abbrev pub uint32 : Scalar ℕ
uint32 = record {
  zero = 0;
  add = add32;
  sub = sub32;
  mul = λ a b. (a * b) % mod32;
  div = λ a b. a / b;
  equals = λ a b. a == b;
}

pub uint32-IsExact : IsExact uint32
uint32-IsExact = record { exact = ==_iff }
