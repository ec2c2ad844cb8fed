-- ===== src/Ipc/Darwin/SharedMemory/Tests.antt =====
-- Runs of the constructor of src/ipc/darwin/SharedMemory.cpp.
use libazul.Base.{◌≡◌, refl, true, [], ◌∷◌, none, some, ok, throw}
use libazul.Utils.Disposer.{destroy}
use libazul.Ipc.Darwin.SharedMemory.{
  System, shm_open, shm_unlink, fstat, ftruncate, mmap, close, mmap_failed, construct,
  create_shared_memory, allocate_shared_memory,
}
use libazul.Ipc.Darwin.SharedMemory.Release.{Resources, after, life, all_released}

-- There is no room for the mapping.
abbrev no_room : System
no_room = record {
  encodes = ok 0;
  opens = ok 5;
  again = ok 6;
  unlinks = ok 0;
  fstats = ok 0;
  truncates = ok 0;
  maps = throw 12;
}

abbrev others : Resources
others = record { files = 3 ∷ []; mappings = 9 ∷ [] }

all_released_example : after (life (construct 64 true no_room)) others ≡ others
all_released_example = all_released 64 true no_room others

no_room_run : construct 64 true no_room ≡ (
  shm_unlink ∷ shm_open (some 5) ∷ fstat 5 ∷ ftruncate 5 ∷ mmap none ∷ close 5 ∷ shm_unlink ∷ [],
  throw (mmap_failed 12),
)
unfolding construct create_shared_memory allocate_shared_memory destroy
no_room_run = refl
