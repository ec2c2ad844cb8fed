-- ===== src/Ipc/Windows/SharedMemory.antt =====
-- src/ipc/win32/SharedMemory.cpp. What the operating system answers is a parameter; the model gives
-- the list of the system calls that are made, and what is returned or thrown.
pub mod Release
mod Tests
use libazul.Base.{
  ℕ, ◌/◌, ◌%◌, Bool, true, false, List, [], ◌∷◌, ◌++◌, Option, none, some, Result, ok, throw,
  if◌then◌else◌, mod32,
}
use libazul.Utils.Disposer.{Disposer, empty, set, destroy}

-- The answer of a call: a handle or an address, or the value of `GetLastError`.
abbrev pub Answer : Type 0
Answer = Result ℕ ℕ

pub record System : Type 0 where
  pub creates : Answer
  pub opens : Answer
  pub maps : Answer

-- The calls with what they return, if they succeed. `create_file_mapping` has the two halves of the
-- size before it.
pub data SystemCall : Type 0 where
  create_file_mapping : (high low : ℕ) → Option ℕ → SystemCall
  open_file_mapping : Option ℕ → SystemCall
  map_view_of_file : (handle size : ℕ) → Option ℕ → SystemCall
  close_handle : ℕ → SystemCall

pub data MemoryError : Type 0 where
  create_file_mapping_failed map_view_of_file_failed : ℕ → MemoryError
  not_initialized : MemoryError

pub record SharedMemory : Type 0 where
  pub disposer : Disposer SystemCall
  pub address : ℕ
  pub size : ℕ

abbrev pub Ran : Type 0 → Type 0
Ran A = List SystemCall × Result MemoryError A

abbrev pub answer : Answer → Option ℕ
answer (ok a) = some a
answer (throw e) = none

-- `size >> 32` and `size & 0xffffffff`.
abbrev pub size_high : ℕ → ℕ
size_high size = size / mod32

abbrev pub size_low : ℕ → ℕ
size_low size = size % mod32

-- The call that gives the handle.
abbrev handle_call : (size : ℕ) → (is_owner : Bool) → System → SystemCall
handle_call size is_owner s =
    if is_owner
    then create_file_mapping (size_high size) (size_low size) (answer s.creates)
    else open_file_mapping (answer s.opens)

-- From `MapViewOfFile` on; where the constructor throws, its disposer is destroyed.
after_map : (size handle : ℕ) → SystemCall → Disposer SystemCall → Answer → Ran SharedMemory
after_map size handle c d (ok address) = (
  c ∷ map_view_of_file handle size (some address) ∷ [],
  ok (record { disposer = d; address = address; size = size }),
)
after_map size handle c d (throw e) =
    (c ∷ map_view_of_file handle size none ∷ destroy d, throw (map_view_of_file_failed e))

after_handle : (size : ℕ) → System → SystemCall → Answer → Ran SharedMemory
unfolding after_map
after_handle size s c (ok handle) =
    after_map size handle c (set empty (close_handle handle ∷ [])) s.maps
after_handle size s c (throw e) = (c ∷ [], throw (create_file_mapping_failed e))

-- The constructor, `CreateSharedMemory` included.
unfoldable pub construct : (size : ℕ) → (is_owner : Bool) → System → Ran SharedMemory
unfolding after_handle
construct size is_owner s =
    after_handle size s (handle_call size is_owner s) (if is_owner then s.creates else s.opens)

-- The destructor.
unfoldable pub release : SharedMemory → List SystemCall
release m = destroy m.disposer

-- `Address` and `Size` of the facade.
unfoldable pub facade_address : Option SharedMemory → Result MemoryError ℕ
facade_address none = throw not_initialized
facade_address (some m) = ok m.address

unfoldable pub facade_size : Option SharedMemory → Result MemoryError ℕ
facade_size none = throw not_initialized
facade_size (some m) = ok m.size
