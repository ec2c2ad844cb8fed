-- ===== src/Compute/Vectors/Vec4.antt =====
-- include/azul/compute/clcpp/OpenClVector.hpp: `Vec4` over any scalar. An operator that assigns
-- goes through the components in order and reads its operand, a reference, at each of them.
use libazul.Base.{◌≡◌, refl, ap, Bool, true, false, not, ◌&&◌, ◌↔◌}
use libazul.Compute.Vectors.{Scalar, IsExact}

pub record Vec4 (T : Type 0) : Type 0 where
  pub x : T
  pub y : T
  pub z : T
  pub w : T

-- The vector that an operator takes: another one, or the object itself.
pub data Operand (T : Type 0) : Type 0 where
  other : Vec4 T → Operand T
  itself : Operand T

-- The factor that an operator takes: a value elsewhere, or a component of the object itself.
pub data Factor (T : Type 0) : Type 0 where
  value : T → Factor T
  of_x of_y of_z of_w : Factor T

abbrev pub operand_of : {T : Type 0} → Operand T → Vec4 T → Vec4 T
operand_of (other w) v = w
operand_of itself v = v

abbrev pub factor_of : {T : Type 0} → Factor T → Vec4 T → T
factor_of (value c) v = c
factor_of of_x v = v.x
factor_of of_y v = v.y
factor_of of_z v = v.z
factor_of of_w v = v.w

both_true : (a b : Bool) → (a && b) ≡ true → (a ≡ true) × (b ≡ true)
both_true true b h = (refl, h)
both_true false b h = absurd (cc)

module _ {T : Type 0} (s : Scalar T) where
  unfoldable pub zero_vector : Vec4 T
  zero_vector = record { x = s.zero; y = s.zero; z = s.zero; w = s.zero }

  -- `operator +` and `operator +=`.
  unfoldable pub add : Vec4 T → Vec4 T → Vec4 T
  add v w = record { x = s.add v.x w.x; y = s.add v.y w.y; z = s.add v.z w.z; w = s.add v.w w.w }

  unfoldable pub add_assign : Vec4 T → Operand T → Vec4 T
  add_assign v r =
      let v1 : Vec4 T = record v { x = s.add v.x (operand_of r v).x } in
      let v2 : Vec4 T = record v1 { y = s.add v1.y (operand_of r v1).y } in
      let v3 : Vec4 T = record v2 { z = s.add v2.z (operand_of r v2).z } in
      record v3 { w = s.add v3.w (operand_of r v3).w }

  -- `operator -` and `operator -=`.
  unfoldable pub sub : Vec4 T → Vec4 T → Vec4 T
  sub v w = record { x = s.sub v.x w.x; y = s.sub v.y w.y; z = s.sub v.z w.z; w = s.sub v.w w.w }

  unfoldable pub sub_assign : Vec4 T → Operand T → Vec4 T
  sub_assign v r =
      let v1 : Vec4 T = record v { x = s.sub v.x (operand_of r v).x } in
      let v2 : Vec4 T = record v1 { y = s.sub v1.y (operand_of r v1).y } in
      let v3 : Vec4 T = record v2 { z = s.sub v2.z (operand_of r v2).z } in
      record v3 { w = s.sub v3.w (operand_of r v3).w }

  -- `operator *` and `operator *=`.
  unfoldable pub mul : Vec4 T → T → Vec4 T
  mul v c = record { x = s.mul v.x c; y = s.mul v.y c; z = s.mul v.z c; w = s.mul v.w c }

  unfoldable pub mul_assign : Vec4 T → Factor T → Vec4 T
  mul_assign v r =
      let v1 : Vec4 T = record v { x = s.mul v.x (factor_of r v) } in
      let v2 : Vec4 T = record v1 { y = s.mul v1.y (factor_of r v1) } in
      let v3 : Vec4 T = record v2 { z = s.mul v2.z (factor_of r v2) } in
      record v3 { w = s.mul v3.w (factor_of r v3) }

  -- `operator /` and `operator /=`.
  unfoldable pub div : Vec4 T → T → Vec4 T
  div v c = record { x = s.div v.x c; y = s.div v.y c; z = s.div v.z c; w = s.div v.w c }

  unfoldable pub div_assign : Vec4 T → Factor T → Vec4 T
  div_assign v r =
      let v1 : Vec4 T = record v { x = s.div v.x (factor_of r v) } in
      let v2 : Vec4 T = record v1 { y = s.div v1.y (factor_of r v1) } in
      let v3 : Vec4 T = record v2 { z = s.div v2.z (factor_of r v2) } in
      record v3 { w = s.div v3.w (factor_of r v3) }

  -- `operator==` and `operator!=`.
  unfoldable pub equals : Vec4 T → Vec4 T → Bool
  equals v w = ((s.equals v.x w.x && s.equals v.y w.y) && s.equals v.z w.z) && s.equals v.w w.w

  unfoldable pub not_equals : Vec4 T → Vec4 T → Bool
  not_equals v w = not (equals v w)

  -- `+=` and `-=` give what `+` and `-` do, also where the operand is the object itself.
  pub add_assign-add : (v : Vec4 T) (r : Operand T) → add_assign v r ≡ add v (operand_of r v)
  unfolding add add_assign
  add_assign-add v (other w) = refl
  add_assign-add v itself = refl

  pub sub_assign-sub : (v : Vec4 T) (r : Operand T) → sub_assign v r ≡ sub v (operand_of r v)
  unfolding sub sub_assign
  sub_assign-sub v (other w) = refl
  sub_assign-sub v itself = refl

  -- `*=` and `/=` by a factor that is not a component of the object, or is the last one, give what
  -- `*` and `/` do; by the first component they take the new value of it for the others.
  pub mul_assign-mul :
      (v : Vec4 T) (c : T)
      → (mul_assign v (value c) ≡ mul v c)
        × (mul_assign v of_w ≡ mul v v.w)
        × (mul_assign v of_x ≡ record {
          x = s.mul v.x v.x;
          y = s.mul v.y (s.mul v.x v.x);
          z = s.mul v.z (s.mul v.x v.x);
          w = s.mul v.w (s.mul v.x v.x);
        })
  unfolding mul mul_assign
  mul_assign-mul v c = (refl, refl, refl)

  pub div_assign-div :
      (v : Vec4 T) (c : T)
      → (div_assign v (value c) ≡ div v c)
        × (div_assign v of_w ≡ div v v.w)
        × (div_assign v of_x ≡ record {
          x = s.div v.x v.x;
          y = s.div v.y (s.div v.x v.x);
          z = s.div v.z (s.div v.x v.x);
          w = s.div v.w (s.div v.x v.x);
        })
  unfolding div div_assign
  div_assign-div v c = (refl, refl, refl)

  -- Equal components make equal vectors.
  joined : (v w : Vec4 T) → v.x ≡ w.x → v.y ≡ w.y → v.z ≡ w.z → v.w ≡ w.w → v ≡ w
  joined v w hx hy hz hw = λ i. record { x = hx i; y = hy i; z = hz i; w = hw i }

  -- `==` tells whether two vectors are the same, if that of the scalar does so.
  pub equals_exact :
      IsExact s
      → (v w : Vec4 T) → ((equals v w ≡ true) ↔ (v ≡ w)) × (not_equals v w ≡ not (equals v w))
  unfolding equals not_equals
  equals_exact e v w = ((same, alike), refl)
    where
      same : equals v w ≡ true → v ≡ w
      same h =
          let (abc, d) = both_true _ (s.equals v.w w.w) h in
          let (ab, c) = both_true _ (s.equals v.z w.z) abc in
          let (a, b) = both_true (s.equals v.x w.x) (s.equals v.y w.y) ab in
          joined v w ((e.exact v.x w.x).0 a) ((e.exact v.y w.y).0 b) ((e.exact v.z w.z).0 c)
            ((e.exact v.w w.w).0 d)

      alike : v ≡ w → equals v w ≡ true
      alike h =
          rw
            (
              (e.exact v.x w.x).1 (ap (λ u. u.x) h),
              (e.exact v.y w.y).1 (ap (λ u. u.y) h),
              (e.exact v.z w.z).1 (ap (λ u. u.z) h),
              (e.exact v.w w.w).1 (ap (λ u. u.w) h),
            )
            refl
