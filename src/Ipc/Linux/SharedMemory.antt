-- ===== src/Ipc/Linux/SharedMemory.antt =====
-- src/ipc/linux/SharedMemory.cpp. What the operating system answers is a parameter; the model gives
-- the list of the system calls that are made, and what is returned or thrown.
pub mod Release
mod Tests
use libazul.Base.{
  ℕ, Bool, true, false, List, [], ◌∷◌, ◌++◌, Option, none, some, Result, ok, throw, ◌==◌,
  if◌then◌else◌,
}
use libazul.Utils.Disposer.{Disposer, empty, set, destroy}

-- The answer of a call: a result, or the value of `errno`.
abbrev pub Answer : Type 0
Answer = Result ℕ ℕ

-- The answers in one run; `again` is that of the second `shm_open`.
pub record System : Type 0 where
  pub opens : Answer
  pub again : Answer
  pub unlinks : Answer
  pub truncates : Answer
  pub maps : Answer

-- The calls, `shm_open` and `mmap` with what they return, if they succeed.
pub data SystemCall : Type 0 where
  shm_open : Option ℕ → SystemCall
  shm_unlink : SystemCall
  ftruncate : ℕ → SystemCall
  mmap : Option ℕ → SystemCall
  munmap : ℕ → SystemCall
  close : ℕ → SystemCall

pub data MemoryError : Type 0 where
  shm_unlink_failed shm_open_failed ftruncate_failed mmap_failed : ℕ → MemoryError
  not_initialized : MemoryError

abbrev pub eexist : ℕ
eexist = 17

pub record SharedMemory : Type 0 where
  pub fd_disposer : Disposer SystemCall
  pub fd : ℕ
  pub allocation_disposer : Disposer SystemCall
  pub address : ℕ
  pub size : ℕ

abbrev pub Ran : Type 0 → Type 0
Ran A = List SystemCall × Result MemoryError A

-- What the function does that `CreateSharedMemory` gives to the disposer.
abbrev pub close_and_unlink : (is_owner : Bool) → ℕ → List SystemCall
close_and_unlink is_owner fd = close fd ∷ (if is_owner then shm_unlink ∷ [] else [])

opened : (is_owner : Bool) → List SystemCall → Answer → Ran (ℕ × Disposer SystemCall)
opened is_owner calls (ok fd) =
    (calls ++ shm_open (some fd) ∷ [], ok (fd, set empty (close_and_unlink is_owner fd)))
opened is_owner calls (throw errno) = (calls ++ shm_open none ∷ [], throw (shm_open_failed errno))

after_unlink : (is_owner : Bool) → System → Answer → Ran (ℕ × Disposer SystemCall)
unfolding opened
after_unlink is_owner s (ok r) = opened is_owner (shm_open none ∷ shm_unlink ∷ []) s.again
after_unlink is_owner s (throw errno) =
    (shm_open none ∷ shm_unlink ∷ [], throw (shm_unlink_failed errno))

after_open : (is_owner : Bool) → System → Answer → Ran (ℕ × Disposer SystemCall)
unfolding after_unlink opened
after_open is_owner s (ok fd) = opened is_owner [] (ok fd)
after_open is_owner s (throw errno) =
    if errno == eexist then after_unlink is_owner s s.unlinks else opened is_owner [] (throw errno)

pub create_shared_memory : (is_owner : Bool) → System → Ran (ℕ × Disposer SystemCall)
unfolding after_open
create_shared_memory is_owner s = after_open is_owner s s.opens

mapped : List SystemCall → Answer → Ran (ℕ × Disposer SystemCall)
mapped calls (ok address) =
    (calls ++ mmap (some address) ∷ [], ok (address, set empty (munmap address ∷ [])))
mapped calls (throw errno) = (calls ++ mmap none ∷ [], throw (mmap_failed errno))

after_truncate : System → ℕ → Answer → Ran (ℕ × Disposer SystemCall)
unfolding mapped
after_truncate s fd (ok r) = mapped (ftruncate fd ∷ []) s.maps
after_truncate s fd (throw errno) = (ftruncate fd ∷ [], throw (ftruncate_failed errno))

pub allocate_shared_memory : (is_owner : Bool) → System → ℕ → Ran (ℕ × Disposer SystemCall)
unfolding after_truncate mapped
allocate_shared_memory is_owner s fd =
    if is_owner then after_truncate s fd s.truncates else mapped [] s.maps

-- The rest of the constructor; where it throws, the members that are there are destroyed.
allocated :
    (size fd : ℕ)
    → Disposer SystemCall
    → List SystemCall
    → Ran (ℕ × Disposer SystemCall)
    → Ran SharedMemory
unfolding destroy
allocated size fd d calls (more, ok (address, e)) = (
  calls ++ more,
  ok (record { fd_disposer = d; fd = fd; allocation_disposer = e; address = address; size = size }),
)
allocated size fd d calls (more, throw x) = (calls ++ more ++ destroy d, throw x)

created : (is_owner : Bool) → (size : ℕ) → System → Ran (ℕ × Disposer SystemCall) → Ran SharedMemory
unfolding allocated allocate_shared_memory
created is_owner size s (calls, ok (fd, d)) =
    allocated size fd d calls (allocate_shared_memory is_owner s fd)
created is_owner size s (calls, throw x) = (calls, throw x)

-- The constructor.
pub construct : (size : ℕ) → (is_owner : Bool) → System → Ran SharedMemory
unfolding created create_shared_memory
construct size is_owner s = created is_owner size s (create_shared_memory is_owner s)

-- The destructor: the members go in reverse order.
pub release : SharedMemory → List SystemCall
unfolding destroy
release m = destroy m.allocation_disposer ++ destroy m.fd_disposer

-- `Address` and `Size` of the facade.
pub facade_address : Option SharedMemory → Result MemoryError ℕ
facade_address none = throw not_initialized
facade_address (some m) = ok m.address

pub facade_size : Option SharedMemory → Result MemoryError ℕ
facade_size none = throw not_initialized
facade_size (some m) = ok m.size
