-- ===== src/Ipc/Linux/Objects/Lifetime.antt =====
-- src/ipc/linux/RobustMutex.hpp and ConditionVariable.cpp: what is made is destroyed, and while its
-- memory is there.
use libazul.Base.{
  ℕ, ◌≡◌, ap, ap₂, ◌∙◌, Bool, true, false, List, [], ◌∷◌, ◌++◌, append-nil, some, ok, throw,
  Bool-cases, inl, inr,
}
use libazul.Utils.Disposer.{destroy}
use libazul.Ipc.Objects.{
  Attribute, robust, process_shared, error_check, realtime, ObjectCall, object_destroy, in_memory,
  make_object, memory_calls, nothing_live, live_after, live_after-then, memory_calls-append,
  memory_calls-in_memory, memory_calls-make_object, live_after-in_memory, live_after-make_object,
}
use libazul.Ipc.Linux.Pthread.{Code}
use libazul.Ipc.Linux.SharedMemory.{System, SystemCall, SharedMemory, Ran, construct, release}
use libazul.Ipc.Linux.SharedMemory.Release.{open_files, mappings, life, no_leak}
use libazul.Ipc.Linux.Objects.{
  Made, is_success, initialized, with_memory, construct_mutex, construct_condition, release_object,
}

-- The calls of an object's whole life, which ends at once where the constructor throws.
abbrev pub whole_life : Made → List (ObjectCall SystemCall)
whole_life (calls, ok x) = calls ++ release_object x
whole_life (calls, throw e) = calls

-- The constructor's calls on the memory and for the object.
memory_calls-made :
    (calls : List SystemCall) (setters : List Attribute) (init : Bool)
    → memory_calls (in_memory calls ++ make_object setters init) ≡ calls
memory_calls-made calls setters init =
    memory_calls-append (in_memory calls) (make_object setters init)
    ∙ ap₂ ◌++◌ (memory_calls-in_memory calls) (memory_calls-make_object SystemCall setters init)
    ∙ append-nil calls

live_after-made :
    (calls : List SystemCall) (setters : List Attribute) (init : Bool)
    → live_after (in_memory calls ++ make_object setters init) nothing_live
      ≡ some (record { attributes = false; object = init; file = false })
live_after-made calls setters init =
    live_after-then (in_memory calls) (make_object setters init) nothing_live nothing_live
      (live_after-in_memory calls false false)
      (live_after-make_object SystemCall setters init false)

-- The calls keep to the life of the memory.
abbrev Lives : List SystemCall → Made → Type 0
Lives cs r =
    (memory_calls (whole_life r) ≡ cs)
    × (live_after (whole_life r) nothing_live ≡ some nothing_live)

-- What comes after the object is there, or is not.
ended-Lives :
    (calls cs : List SystemCall) (setters : List Attribute) (init : Bool)
    (last : List (ObjectCall SystemCall))
    → memory_calls last ≡ cs
    → live_after last (record { attributes = false; object = init; file = false })
      ≡ some nothing_live
    → (memory_calls ((in_memory calls ++ make_object setters init) ++ last) ≡ calls ++ cs)
      × (live_after ((in_memory calls ++ make_object setters init) ++ last) nothing_live
          ≡ some nothing_live)
ended-Lives calls cs setters init last e h = (
  memory_calls-append (in_memory calls ++ make_object setters init) last
      ∙ ap₂ ◌++◌ (memory_calls-made calls setters init) e,
  live_after-then (in_memory calls ++ make_object setters init) last nothing_live
      (record { attributes = false; object = init; file = false })
      (live_after-made calls setters init) h,
)

initialized-Lives :
    (setters : List Attribute) (b : Bool) (init : Code) (calls : List SystemCall) (m : SharedMemory)
    → Lives (calls ++ release m) (initialized setters b init (in_memory calls) m)
unfolding initialized release_object destroy
initialized-Lives setters false init calls m = (
  memory_calls-append (in_memory calls) (in_memory (release m))
      ∙ ap₂ ◌++◌ (memory_calls-in_memory calls) (memory_calls-in_memory (release m)),
  live_after-then (in_memory calls) (in_memory (release m)) nothing_live nothing_live
      (live_after-in_memory calls false false) (live_after-in_memory (release m) false false),
)
initialized-Lives setters true init calls m = elim (Bool-cases (is_success init)) [
  | inl s ↦ rw s (
      ended-Lives calls (release m) setters true (object_destroy ∷ in_memory (release m))
        (memory_calls-in_memory (release m)) (live_after-in_memory (release m) false false))
  | inr f ↦ rw f (
      ended-Lives calls (release m) setters false (in_memory (release m))
        (memory_calls-in_memory (release m)) (live_after-in_memory (release m) false false))
]

with_memory-Lives :
    (setters : List Attribute) (b : Bool) (init : Code) (r : Ran SharedMemory)
    → Lives (life r) (with_memory setters b init r)
unfolding with_memory
with_memory-Lives setters b init (calls, ok m) = initialized-Lives setters b init calls m
with_memory-Lives setters b init (calls, throw e) =
    (memory_calls-in_memory calls, live_after-in_memory calls false false)

-- The calls can all be made, and leave no file, no mapping, no attributes and no object.
abbrev pub Clean : List ℕ → List ℕ → List (ObjectCall SystemCall) → Type 0
Clean fds ms calls =
    (open_files fds (memory_calls calls) ≡ fds)
    × (mappings ms (memory_calls calls) ≡ ms)
    × (live_after calls nothing_live ≡ some nothing_live)

made-Clean :
    (setters : List Attribute) (b : Bool) (init : Code) (size : ℕ) (s : System) (fds ms : List ℕ)
    → Clean fds ms (whole_life (with_memory setters b init (construct size b s)))
made-Clean setters b init size s fds ms =
    let (same, allowed) = with_memory-Lives setters b init (construct size b s) in
    let (files, maps) = no_leak size b s fds ms in
    (ap (open_files fds) same ∙ files, ap (mappings ms) same ∙ maps, allowed)

-- However the system and POSIX threads answer, a mutex or a condition variable that is constructed
-- and destroyed, or whose constructor throws, closes each file that it opened, unmaps each mapping
-- that it made and destroys the attributes and the object that it initialised: the object is made
-- with attributes that are there, and destroyed before its memory goes.
pub objects_released :
    (size : ℕ) (is_owner : Bool) (s : System) (init : Code) (fds ms : List ℕ)
    → Clean fds ms (whole_life (construct_mutex size is_owner s init))
      × Clean fds ms (whole_life (construct_condition size is_owner s init))
unfolding construct_mutex construct_condition
objects_released size is_owner s init fds ms = (
  made-Clean (robust ∷ process_shared ∷ error_check ∷ []) is_owner init size s fds ms,
  made-Clean (process_shared ∷ realtime ∷ []) is_owner init size s fds ms,
)
