-- ===== src/Ipc/Linux/Objects.antt =====
-- src/ipc/linux/RobustMutex.hpp and ConditionVariable.cpp: the constructors and destructors of the
-- mutex and of the condition variable, whose object lies in shared memory. What POSIX threads and
-- the system answer is a parameter; the model gives the list of the calls that are made.
mod Lifetime
mod Tests
use libazul.Base.{
  ℕ, Bool, true, false, List, [], ◌∷◌, ◌++◌, map, Option, none, some, Result, ok, throw,
  if◌then◌else◌,
}
use libazul.Utils.Disposer.{Disposer, empty, set, destroy}
use libazul.Ipc.Objects.{
  Attribute, robust, process_shared, error_check, realtime, ObjectCall, object_destroy, in_memory,
  make_object,
}
use libazul.Ipc.Linux.Pthread.{
  Code, success, edeadlk, eownerdead, ebusy, eperm, enotrecoverable, einval, etimedout, other,
}
use libazul.Ipc.Linux.SharedMemory.{
  System, SystemCall, MemoryError, SharedMemory, Ran, construct, release,
}

pub data ObjectError : Type 0 where
  memory_failed : MemoryError → ObjectError
  init_failed : Code → ObjectError

-- A mutex or a condition variable of this process.
pub record Object : Type 0 where
  pub shared_memory : SharedMemory
  pub disposer : Disposer (ObjectCall SystemCall)
  pub handle : ℕ

abbrev pub Made : Type 0
Made = List (ObjectCall SystemCall) × Result ObjectError Object

abbrev pub is_success : Code → Bool
is_success success = true
is_success edeadlk = false
is_success eownerdead = false
is_success ebusy = false
is_success eperm = false
is_success enotrecoverable = false
is_success einval = false
is_success etimedout = false
is_success (other n) = false

-- What both constructors do with the memory that they have: they put the object there if they own
-- it. Where they throw, the members that are there are destroyed.
initialized :
    (setters : List Attribute)
    → (is_owner : Bool) → (init : Code) → List (ObjectCall SystemCall)
    → SharedMemory
    → Made
initialized setters false init calls m =
    (calls, ok (record { shared_memory = m; disposer = empty; handle = m.address }))
initialized setters true init calls m =
    let calls' : List (ObjectCall SystemCall) = calls ++ make_object setters (is_success init) in
    if is_success init
    then (
      calls',
      ok (record {
        shared_memory = m;
        disposer = set empty (object_destroy ∷ []);
        handle = m.address;
      }),
    )
    else (calls' ++ in_memory (release m), throw (init_failed init))

with_memory :
    (setters : List Attribute) → (is_owner : Bool) → (init : Code) → Ran SharedMemory → Made
unfolding initialized
with_memory setters is_owner init (calls, ok m) =
    initialized setters is_owner init (in_memory calls) m
with_memory setters is_owner init (calls, throw e) = (in_memory calls, throw (memory_failed e))

-- The constructor of the mutex; `size` is that of `pthread_mutex_t`, `init` what
-- `pthread_mutex_init` returns.
pub construct_mutex : (size : ℕ) → (is_owner : Bool) → System → (init : Code) → Made
unfolding with_memory
construct_mutex size is_owner s init =
    with_memory (robust ∷ process_shared ∷ error_check ∷ []) is_owner init
      (construct size is_owner s)

-- The constructor of the condition variable; `init` is what `pthread_cond_init` returns.
pub construct_condition : (size : ℕ) → (is_owner : Bool) → System → (init : Code) → Made
unfolding with_memory
construct_condition size is_owner s init =
    with_memory (process_shared ∷ realtime ∷ []) is_owner init (construct size is_owner s)

-- Both destructors: the members go in reverse order.
pub release_object : Object → List (ObjectCall SystemCall)
unfolding destroy
release_object x = destroy x.disposer ++ in_memory (release x.shared_memory)
