-- ===== src/Utils/Disposer/Tests.antt =====
-- Runs of a disposer.
use libazul.Base.{ℕ, ◌≡◌, refl, [], ◌∷◌}
use libazul.Utils.Disposer.{from_function, move_construct, destroy}

move_run : destroy {A = ℕ} (move_construct (from_function (1 ∷ []))).0 ≡ 1 ∷ []
unfolding destroy move_construct
move_run = refl
