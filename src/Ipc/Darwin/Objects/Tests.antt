-- ===== src/Ipc/Darwin/Objects/Tests.antt =====
-- A mutex whose memory is missing, and whose lock file cannot be opened.
use libazul.Base.{false, ok, throw}
use libazul.Ipc.Darwin.SharedMemory.{System}
use libazul.Ipc.Darwin.Objects.{Answers, construct_mutex, construct_condition}
use libazul.Ipc.Darwin.Objects.Local.{Clean}
use libazul.Ipc.Darwin.Objects.Lifetime.{mutex_life, condition_life, mutexes_released}

abbrev missing : System
missing = record {
  encodes = ok 0;
  opens = throw 2;
  again = ok 6;
  unlinks = ok 0;
  fstats = ok 0;
  truncates = ok 0;
  maps = ok 4096;
}

abbrev there : System
there = record (missing) { opens = ok 5 }

abbrev answers : Answers
answers = record { first = missing; second = there; init = 0; stat_finds = false; opens = throw 13 }

mutexes_released_example :
    Clean (mutex_life (construct_mutex 64 false answers))
    × Clean (condition_life (construct_condition 64 false there answers))
mutexes_released_example = mutexes_released 64 false there answers
