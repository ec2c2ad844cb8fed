-- ===== src/Utils/Disposer.antt =====
-- include/azul/utils/Disposer.hpp: an object that calls a function when it is destroyed. What the
-- function does is a list of actions of type `A`.
mod Tests
use libazul.Base.{append-nil, ◌≡◌, refl, ap, List, [], ◌∷◌, ◌++◌, Option, none, some}

pub record Disposer (A : Type 0) : Type 0 where
  pub func : Option (List A)

module _ {A : Type 0} where
  -- The three constructors; the one that moves gives the other object as it leaves it.
  abbrev pub from_function : List A → Disposer A
  from_function f = record { func = some f }

  abbrev pub empty : Disposer A
  empty = record { func = none }

  unfoldable pub move_construct : (other : Disposer A) → Disposer A × Disposer A
  move_construct other = (record { func = other.func }, record { func = none })

  abbrev pub set : Disposer A → List A → Disposer A
  set d f = record { func = some f }

  -- The assignment that moves; the function that it replaces is not called.
  unfoldable pub move_assign : Disposer A → (other : Disposer A) → Disposer A × Disposer A
  move_assign d other = (record { func = other.func }, record { func = none })

  -- What the destructor does.
  abbrev call_func : Option (List A) → List A
  call_func none = []
  call_func (some f) = f

  unfoldable pub destroy : Disposer A → List A
  destroy d = call_func d.func

  -- After a move the function is called once, by the new object: in whatever order the two are
  -- destroyed they do together what the old one alone would have done.
  pub move_construct-destroy :
      (d : Disposer A)
      → (destroy (move_construct d).0 ++ destroy (move_construct d).1 ≡ destroy d)
        × (destroy (move_construct d).1 ++ destroy (move_construct d).0 ≡ destroy d)
  unfolding move_construct destroy
  move_construct-destroy d = (append-nil (call_func d.func), refl)
