-- ===== src/Ipc/Linux/SharedMemory/Tests.antt =====
-- Runs of shared memory of src/ipc/linux.
use libazul.Base.{◌≡◌, refl, true, [], ◌∷◌, none, some, ok, throw}
use libazul.Ipc.Linux.SharedMemory.{
  System, shm_open, shm_unlink, ftruncate, mmap, close, eexist, construct,
}
use libazul.Ipc.Linux.SharedMemory.Release.{open_files, mappings, life, no_leak}

-- The name is taken at first, and there is no memory to map.
abbrev full : System
full = record {
  opens = throw eexist;
  again = ok 3;
  unlinks = ok 0;
  truncates = ok 0;
  maps = throw 12;
}

no_leak_example :
    (open_files (7 ∷ []) (life (construct 64 true full)) ≡ 7 ∷ [])
    × (mappings [] (life (construct 64 true full)) ≡ [])
no_leak_example = no_leak 64 true full (7 ∷ []) []

-- The calls that are made then: the constructor throws, and its members are destroyed.
full_calls :
    (construct 64 true full).0
    ≡ shm_open none
      ∷ shm_unlink
      ∷ shm_open (some 3)
      ∷ ftruncate 3
      ∷ mmap none
      ∷ close 3
      ∷ shm_unlink
      ∷ []
unfolding construct
full_calls = refl
