-- ===== src/Ipc/Darwin/Objects.antt =====
-- src/ipc/darwin/RobustMutex.cpp and ConditionVariable.cpp: the constructors and destructors of the
-- mutex, which has a mutex of the process in shared memory and a lock file, and of the condition
-- variable, which has a queue in shared memory and such a mutex. What the system answers is a
-- parameter; the model gives the list of the calls that are made.
mod Local
mod Lifetime
mod Tests
use libazul.Base.{
  ℕ, ◌*◌, Bool, true, false, List, [], ◌∷◌, ◌++◌, Result, ok, throw, ◌==◌, if◌then◌else◌,
}
use libazul.Utils.Disposer.{Disposer, empty, set, destroy}
use libazul.Ipc.Objects.{
  error_check, process_shared, ObjectCall, object_destroy, file_status, file_create, file_open,
  file_close, in_memory, make_object,
}
use libazul.Ipc.Darwin.SharedMemory.{
  System, SystemCall, MemoryError, encode_failed, shm_unlink_failed, shm_open_failed,
  ftruncate_failed, mmap_failed, resource_missing, not_initialized, SharedMemory, Ran, construct,
  release,
}

-- The answers in one run: to the two tries for the memory, of `pthread_mutex_init`, whether the
-- lock file is there, and the file that `fopen` gives or the value of `errno`.
pub record Answers : Type 0 where
  pub first : System
  pub second : System
  pub init : ℕ
  pub stat_finds : Bool
  pub opens : Result ℕ ℕ

pub data ObjectError : Type 0 where
  memory_failed : MemoryError → ObjectError
  init_failed fopen_failed : ℕ → ObjectError

abbrev pub Calls : Type 0
Calls = List (ObjectCall SystemCall)

pub record Mutex : Type 0 where
  pub mutex_memory : SharedMemory
  pub mutex_disposer : Disposer (ObjectCall SystemCall)
  pub file_disposer : Disposer (ObjectCall SystemCall)
  pub file : ℕ

-- The mutex of the process: its memory, and what its disposer does.
abbrev pub Local : Type 0
Local = Calls × Result ObjectError (SharedMemory × Disposer (ObjectCall SystemCall))

-- `InitLocalMutex`, with the calls made before; where it throws, the memory is destroyed.
init_local_mutex : (init : ℕ) → List SystemCall → SharedMemory → Local
init_local_mutex init calls m =
    let made : Calls =
      in_memory calls ++ make_object (error_check ∷ process_shared ∷ []) (init == 0) in
    if init == 0
    then (made, ok (m, set empty (object_destroy ∷ [])))
    else (made ++ in_memory (release m), throw (init_failed init))

-- `CreateLocalMutex` from the memory on, with the calls made before.
with_memory : (is_owner : Bool) → (init : ℕ) → List SystemCall → Ran SharedMemory → Local
unfolding init_local_mutex
with_memory true init calls (more, ok m) = init_local_mutex init (calls ++ more) m
with_memory false init calls (more, ok m) = (in_memory (calls ++ more), ok (m, empty))
with_memory is_owner init calls (more, throw e) =
    (in_memory (calls ++ more), throw (memory_failed e))

-- `CreateLocalMutex`: memory that is missing is made, as an owner would do.
after_first_try : (size : ℕ) → (is_owner : Bool) → Answers → Ran SharedMemory → Local
unfolding with_memory
after_first_try size is_owner a (calls, throw resource_missing) =
    with_memory true a.init calls (construct size true a.second)
after_first_try size is_owner a (calls, ok m) = with_memory is_owner a.init [] (calls, ok m)
after_first_try size is_owner a (calls, throw (encode_failed n)) =
    with_memory is_owner a.init [] (calls, throw (encode_failed n))
after_first_try size is_owner a (calls, throw (shm_unlink_failed n)) =
    with_memory is_owner a.init [] (calls, throw (shm_unlink_failed n))
after_first_try size is_owner a (calls, throw (shm_open_failed n)) =
    with_memory is_owner a.init [] (calls, throw (shm_open_failed n))
after_first_try size is_owner a (calls, throw (ftruncate_failed n)) =
    with_memory is_owner a.init [] (calls, throw (ftruncate_failed n))
after_first_try size is_owner a (calls, throw (mmap_failed n)) =
    with_memory is_owner a.init [] (calls, throw (mmap_failed n))
after_first_try size is_owner a (calls, throw not_initialized) =
    with_memory is_owner a.init [] (calls, throw not_initialized)

unfoldable pub create_local_mutex : (size : ℕ) → (is_owner : Bool) → Answers → Local
unfolding after_first_try
create_local_mutex size is_owner a =
    after_first_try size is_owner a (construct size is_owner a.first)

-- `OpenFile`: the calls before `fopen`; the file is made if it is not there.
abbrev file_calls : (is_owner : Bool) → (stat_finds : Bool) → Calls
file_calls false finds = []
file_calls true true = file_status ∷ []
file_calls true false = file_status ∷ file_create ∷ []

-- `OpenFile` and the end of the constructor; where it throws, the members that are there are
-- destroyed.
after_fopen :
    Calls
    → SharedMemory
    → Disposer (ObjectCall SystemCall)
    → Result ℕ ℕ
    → Calls × Result ObjectError Mutex
after_fopen calls m d (ok f) = (
  calls ++ file_open true ∷ [],
  ok (record {
    mutex_memory = m;
    mutex_disposer = d;
    file_disposer = set empty (file_close ∷ []);
    file = f;
  }),
)
after_fopen calls m d (throw errno) = (
  (calls ++ file_open false ∷ []) ++ (destroy d ++ in_memory (release m)),
  throw (fopen_failed errno),
)

with_local : (is_owner : Bool) → Answers → Local → Calls × Result ObjectError Mutex
unfolding after_fopen
with_local is_owner a (calls, ok (m, d)) =
    after_fopen (calls ++ file_calls is_owner a.stat_finds) m d a.opens
with_local is_owner a (calls, throw e) = (calls, throw e)

-- The constructor; `size` is that of `pthread_mutex_t`.
unfoldable pub construct_mutex :
    (size : ℕ) → (is_owner : Bool) → Answers → Calls × Result ObjectError Mutex
unfolding with_local create_local_mutex
construct_mutex size is_owner a = with_local is_owner a (create_local_mutex size is_owner a)

-- The destructor: the members go in reverse order.
unfoldable pub release_members : Mutex → Calls
release_members x =
    destroy x.file_disposer ++ (destroy x.mutex_disposer ++ in_memory (release x.mutex_memory))

pub record Condition : Type 0 where
  pub thread_queue_memory : SharedMemory
  pub thread_queue_mutex : Mutex

-- `_threadQueueSTORAGE_SIZE`
abbrev pub storage_size : ℕ
storage_size = 128 * 1024

-- The constructor of the condition variable from the mutex on; the queue calls nothing.
with_mutex :
    List SystemCall
    → SharedMemory
    → Calls × Result ObjectError Mutex
    → Calls × Result ObjectError Condition
with_mutex calls m (more, ok x) =
    (in_memory calls ++ more, ok (record { thread_queue_memory = m; thread_queue_mutex = x }))
with_mutex calls m (more, throw e) = (in_memory calls ++ (more ++ in_memory (release m)), throw e)

with_queue_memory :
    (size : ℕ)
    → (is_owner : Bool) → Answers
    → Ran SharedMemory
    → Calls × Result ObjectError Condition
unfolding with_mutex
with_queue_memory size is_owner a (calls, ok m) =
    with_mutex calls m (construct_mutex size is_owner a)
with_queue_memory size is_owner a (calls, throw e) = (in_memory calls, throw (memory_failed e))

-- The constructor; `s` has the answers to the calls for the queue.
unfoldable pub construct_condition :
    (size : ℕ) → (is_owner : Bool) → (s : System) → Answers → Calls × Result ObjectError Condition
unfolding with_queue_memory
construct_condition size is_owner s a =
    with_queue_memory size is_owner a (construct storage_size is_owner s)

unfoldable pub release_condition : Condition → Calls
release_condition x =
    release_members x.thread_queue_mutex ++ in_memory (release x.thread_queue_memory)
