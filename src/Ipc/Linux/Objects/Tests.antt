-- ===== src/Ipc/Linux/Objects/Tests.antt =====
-- A mutex that cannot be made.
use libazul.Base.{true, [], ◌∷◌, ok}
use libazul.Ipc.Linux.Pthread.{einval}
use libazul.Ipc.Linux.SharedMemory.{System}
use libazul.Ipc.Linux.Objects.{construct_mutex, construct_condition}
use libazul.Ipc.Linux.Objects.Lifetime.{Clean, whole_life, objects_released}

abbrev answers : System
answers = record { opens = ok 5; again = ok 6; unlinks = ok 0; truncates = ok 0; maps = ok 4096 }

objects_released_example :
    Clean (3 ∷ []) (8192 ∷ []) (whole_life (construct_mutex 40 true answers einval))
    × Clean (3 ∷ []) (8192 ∷ []) (whole_life (construct_condition 40 true answers einval))
objects_released_example = objects_released 40 true answers einval (3 ∷ []) (8192 ∷ [])
