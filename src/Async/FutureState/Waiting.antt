-- ===== src/Async/FutureState/Waiting.antt =====
-- include/azul/async/detail/FutureState.hpp: the members that block. A thread that waits on
-- `_condition` gives up the mutex; the model has the states that it finds, the first when it is
-- called and one at each wake-up, which can also be spurious.
use libazul.Base.{
  All, ◌≡◌, refl, Bool, true, false, List, [], ◌∷◌, ◌++◌, Option, none, some, if◌then◌else◌,
}
use libazul.Async.FutureState.{FutureState, Outcome, is_undefined, get}

pub data CvStatus : Type 0 where
  no_timeout timeout : CvStatus

module _ {V : Type 0} where
  -- `Get`, with the state after each wake-up; it waits where the list ends.
  unfoldable pub get_loop : FutureState V → List (FutureState V) → Outcome V
  get_loop f [] = get f
  get_loop f (g ∷ gs) = let rest = get_loop g gs in if is_undefined f.state then rest else get f

  -- `Wait`: it returns with the state that is last found, or waits still.
  unfoldable pub wait : FutureState V → List (FutureState V) → Option (FutureState V)
  wait f [] = if is_undefined f.state then none else some f
  wait f (g ∷ gs) = if is_undefined f.state then some g else some f

  -- `WaitFor`, with how the wait on the condition ends.
  unfoldable pub wait_for : FutureState V → CvStatus → Bool
  wait_for f no_timeout = true
  wait_for f timeout = if is_undefined f.state then false else true

  abbrev pub IsUnset : FutureState V → Type 0
  IsUnset f = is_undefined f.state ≡ true

  -- `Get` passes over wake-ups that find nothing set.
  get_loop-passes :
      (f : FutureState V) (gs : List (FutureState V)) (h : FutureState V)
      → IsUnset f
      → All IsUnset gs
      → get_loop f (gs ++ h ∷ []) ≡ get h
  unfolding get_loop
  get_loop-passes f [] h u us = rw u refl
  get_loop-passes f (g ∷ gs) h u (v, us) = rw u (get_loop-passes g gs h v us)
