-- ===== src/Compute/Vectors/Vec2.antt =====
-- include/azul/compute/clcpp/OpenClVector.hpp: `Vec2` over any scalar. An operator that assigns
-- goes through the components in order and reads its operand, a reference, at each of them.
use libazul.Base.{◌≡◌, refl, ap, Bool, true, false, not, ◌&&◌, ◌↔◌}
use libazul.Compute.Vectors.{Scalar, IsExact}

pub record Vec2 (T : Type 0) : Type 0 where
  pub x : T
  pub y : T

-- The vector that an operator takes: another one, or the object itself.
pub data Operand (T : Type 0) : Type 0 where
  other : Vec2 T → Operand T
  itself : Operand T

-- The factor that an operator takes: a value elsewhere, or a component of the object itself.
pub data Factor (T : Type 0) : Type 0 where
  value : T → Factor T
  of_x of_y : Factor T

abbrev pub operand_of : {T : Type 0} → Operand T → Vec2 T → Vec2 T
operand_of (other w) v = w
operand_of itself v = v

abbrev pub factor_of : {T : Type 0} → Factor T → Vec2 T → T
factor_of (value c) v = c
factor_of of_x v = v.x
factor_of of_y v = v.y

both_true : (a b : Bool) → (a && b) ≡ true → (a ≡ true) × (b ≡ true)
both_true true b h = (refl, h)
both_true false b h = absurd (cc)

module _ {T : Type 0} (s : Scalar T) where
  unfoldable pub zero_vector : Vec2 T
  zero_vector = record { x = s.zero; y = s.zero }

  -- `operator +` and `operator +=`.
  unfoldable pub add : Vec2 T → Vec2 T → Vec2 T
  add v w = record { x = s.add v.x w.x; y = s.add v.y w.y }

  unfoldable pub add_assign : Vec2 T → Operand T → Vec2 T
  add_assign v r =
      let v1 : Vec2 T = record v { x = s.add v.x (operand_of r v).x } in
      record v1 { y = s.add v1.y (operand_of r v1).y }

  -- `operator -` and `operator -=`.
  unfoldable pub sub : Vec2 T → Vec2 T → Vec2 T
  sub v w = record { x = s.sub v.x w.x; y = s.sub v.y w.y }

  unfoldable pub sub_assign : Vec2 T → Operand T → Vec2 T
  sub_assign v r =
      let v1 : Vec2 T = record v { x = s.sub v.x (operand_of r v).x } in
      record v1 { y = s.sub v1.y (operand_of r v1).y }

  -- `operator *` and `operator *=`.
  unfoldable pub mul : Vec2 T → T → Vec2 T
  mul v c = record { x = s.mul v.x c; y = s.mul v.y c }

  unfoldable pub mul_assign : Vec2 T → Factor T → Vec2 T
  mul_assign v r =
      let v1 : Vec2 T = record v { x = s.mul v.x (factor_of r v) } in
      record v1 { y = s.mul v1.y (factor_of r v1) }

  -- `operator /` and `operator /=`.
  unfoldable pub div : Vec2 T → T → Vec2 T
  div v c = record { x = s.div v.x c; y = s.div v.y c }

  unfoldable pub div_assign : Vec2 T → Factor T → Vec2 T
  div_assign v r =
      let v1 : Vec2 T = record v { x = s.div v.x (factor_of r v) } in
      record v1 { y = s.div v1.y (factor_of r v1) }

  -- `operator==` and `operator!=`.
  unfoldable pub equals : Vec2 T → Vec2 T → Bool
  equals v w = s.equals v.x w.x && s.equals v.y w.y

  unfoldable pub not_equals : Vec2 T → Vec2 T → Bool
  not_equals v w = not (equals v w)

  -- `+=` and `-=` give what `+` and `-` do, also where the operand is the object itself.
  pub add_assign-add : (v : Vec2 T) (r : Operand T) → add_assign v r ≡ add v (operand_of r v)
  unfolding add add_assign
  add_assign-add v (other w) = refl
  add_assign-add v itself = refl

  pub sub_assign-sub : (v : Vec2 T) (r : Operand T) → sub_assign v r ≡ sub v (operand_of r v)
  unfolding sub sub_assign
  sub_assign-sub v (other w) = refl
  sub_assign-sub v itself = refl

  -- `*=` and `/=` by a factor that is not a component of the object, or is the last one, give what
  -- `*` and `/` do; by the first component they take the new value of it for the others.
  pub mul_assign-mul :
      (v : Vec2 T) (c : T)
      → (mul_assign v (value c) ≡ mul v c)
        × (mul_assign v of_y ≡ mul v v.y)
        × (mul_assign v of_x ≡ record { x = s.mul v.x v.x; y = s.mul v.y (s.mul v.x v.x) })
  unfolding mul mul_assign
  mul_assign-mul v c = (refl, refl, refl)

  pub div_assign-div :
      (v : Vec2 T) (c : T)
      → (div_assign v (value c) ≡ div v c)
        × (div_assign v of_y ≡ div v v.y)
        × (div_assign v of_x ≡ record { x = s.div v.x v.x; y = s.div v.y (s.div v.x v.x) })
  unfolding div div_assign
  div_assign-div v c = (refl, refl, refl)

  -- Equal components make equal vectors.
  joined : (v w : Vec2 T) → v.x ≡ w.x → v.y ≡ w.y → v ≡ w
  joined v w hx hy = λ i. record { x = hx i; y = hy i }

  -- `==` tells whether two vectors are the same, if that of the scalar does so.
  pub equals_exact :
      IsExact s
      → (v w : Vec2 T) → ((equals v w ≡ true) ↔ (v ≡ w)) × (not_equals v w ≡ not (equals v w))
  unfolding equals not_equals
  equals_exact e v w = ((same, alike), refl)
    where
      same : equals v w ≡ true → v ≡ w
      same h =
          let (a, b) = both_true (s.equals v.x w.x) (s.equals v.y w.y) h in
          joined v w ((e.exact v.x w.x).0 a) ((e.exact v.y w.y).0 b)

      alike : v ≡ w → equals v w ≡ true
      alike h =
          rw ((e.exact v.x w.x).1 (ap (λ u. u.x) h), (e.exact v.y w.y).1 (ap (λ u. u.y) h)) refl
