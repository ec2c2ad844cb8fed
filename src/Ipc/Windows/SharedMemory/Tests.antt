-- ===== src/Ipc/Windows/SharedMemory/Tests.antt =====
-- Runs of the constructor of src/ipc/win32/SharedMemory.cpp.
use libazul.Base.{All, ◌≡◌, refl, true, [], ◌∷◌, ok}
use libazul.Utils.Disposer.{destroy}
use libazul.Ipc.Windows.SharedMemory.{System, construct, release}
use libazul.Ipc.Windows.SharedMemory.Release.{Resources, after, life, leaked, TellsSize, view_stays}

abbrev granted : System
granted = record { creates = ok 5; opens = ok 6; maps = ok 70 }

abbrev others : Resources
others = record { handles = 3 ∷ []; views = 9 ∷ [] }

view_stays_example :
    (after (life (construct 64 true granted)) others ≡ leaked (construct 64 true granted) others)
    × All (TellsSize 64) (life (construct 64 true granted))
view_stays_example = view_stays 64 true granted others

leak_run : (after (life (construct 64 true granted)) others).views ≡ 70 ∷ 9 ∷ []
unfolding construct release destroy
leak_run = refl
