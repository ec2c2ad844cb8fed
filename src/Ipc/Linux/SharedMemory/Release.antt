-- ===== src/Ipc/Linux/SharedMemory/Release.antt =====
-- src/ipc/linux/SharedMemory.cpp: nothing that was opened or mapped is left over.
use libazul.Base.{
  ℕ, ◌≡◌, refl, Bool, true, false, List, [], ◌∷◌, ◌++◌, none, some, ok, throw, ◌==◌, if◌then◌else◌,
  Bool-cases, inl, inr, arith,
}
use libazul.Utils.Disposer.{destroy}
use libazul.Ipc.Linux.SharedMemory.{
  Answer, System, SystemCall, shm_open, shm_unlink, ftruncate, mmap, munmap, close, eexist,
  SharedMemory, Ran, create_shared_memory, allocate_shared_memory, construct, release, opened,
  after_open, after_unlink, after_truncate, mapped, allocated, created,
}

abbrev remove_first : ℕ → List ℕ → List ℕ
remove_first x [] = []
remove_first x (y ∷ ys) = if x == y then ys else y ∷ remove_first x ys

-- The file descriptors that are open after the calls, and the mappings that are there.
abbrev pub open_files : List ℕ → List SystemCall → List ℕ
open_files fds [] = fds
open_files fds (shm_open none ∷ cs) = open_files fds cs
open_files fds (shm_open (some fd) ∷ cs) = open_files (fd ∷ fds) cs
open_files fds (shm_unlink ∷ cs) = open_files fds cs
open_files fds (ftruncate fd ∷ cs) = open_files fds cs
open_files fds (mmap r ∷ cs) = open_files fds cs
open_files fds (munmap a ∷ cs) = open_files fds cs
open_files fds (close fd ∷ cs) = open_files (remove_first fd fds) cs

abbrev pub mappings : List ℕ → List SystemCall → List ℕ
mappings ms [] = ms
mappings ms (shm_open r ∷ cs) = mappings ms cs
mappings ms (shm_unlink ∷ cs) = mappings ms cs
mappings ms (ftruncate fd ∷ cs) = mappings ms cs
mappings ms (mmap none ∷ cs) = mappings ms cs
mappings ms (mmap (some a) ∷ cs) = mappings (a ∷ ms) cs
mappings ms (munmap a ∷ cs) = mappings (remove_first a ms) cs
mappings ms (close fd ∷ cs) = mappings ms cs

-- The calls of an object's whole life, which ends at once where the constructor throws.
abbrev pub life : Ran SharedMemory → List SystemCall
life (calls, ok m) = calls ++ release m
life (calls, throw x) = calls

abbrev Nothing : List ℕ → List ℕ → List SystemCall → Type 0
Nothing fds ms calls = (open_files fds calls ≡ fds) × (mappings ms calls ≡ ms)

==-refl : (n : ℕ) → (n == n) ≡ true
==-refl n = ground arith

-- The calls before the `shm_open` that counts.
abbrev before : (first : Bool) → List SystemCall
before true = []
before false = shm_open none ∷ shm_unlink ∷ []

-- From that call on.
opened-Nothing :
    (first : Bool) (size : ℕ) (is_owner : Bool) (s : System) (fds ms : List ℕ)
    (opens truncates maps : Answer)
    → s.truncates ≡ truncates
    → s.maps ≡ maps
    → Nothing fds ms (life (created is_owner size s (opened is_owner (before first) opens)))
unfolding created opened allocated allocate_shared_memory after_truncate mapped release destroy
opened-Nothing true size b s fds ms (throw e) t m h k = (refl, refl)
opened-Nothing false size b s fds ms (throw e) t m h k = (refl, refl)
opened-Nothing true size true s fds ms (ok fd) (throw e) m h k = rw (h, ==-refl fd) (refl, refl)
opened-Nothing false size true s fds ms (ok fd) (throw e) m h k = rw (h, ==-refl fd) (refl, refl)
opened-Nothing true size true s fds ms (ok fd) (ok r) (throw e) h k =
    rw (h, k, ==-refl fd) (refl, refl)
opened-Nothing false size true s fds ms (ok fd) (ok r) (throw e) h k =
    rw (h, k, ==-refl fd) (refl, refl)
opened-Nothing true size true s fds ms (ok fd) (ok r) (ok a) h k =
    rw (h, k, ==-refl fd, ==-refl a) (refl, refl)
opened-Nothing false size true s fds ms (ok fd) (ok r) (ok a) h k =
    rw (h, k, ==-refl fd, ==-refl a) (refl, refl)
opened-Nothing true size false s fds ms (ok fd) t (throw e) h k = rw (k, ==-refl fd) (refl, refl)
opened-Nothing false size false s fds ms (ok fd) t (throw e) h k = rw (k, ==-refl fd) (refl, refl)
opened-Nothing true size false s fds ms (ok fd) t (ok a) h k =
    rw (k, ==-refl fd, ==-refl a) (refl, refl)
opened-Nothing false size false s fds ms (ok fd) t (ok a) h k =
    rw (k, ==-refl fd, ==-refl a) (refl, refl)

after_unlink-Nothing :
    (size : ℕ) (is_owner : Bool) (s : System) (fds ms : List ℕ) (unlinks : Answer)
    → Nothing fds ms (life (created is_owner size s (after_unlink is_owner s unlinks)))
unfolding after_unlink
after_unlink-Nothing size b s fds ms (ok r) =
    opened-Nothing false size b s fds ms s.again s.truncates s.maps refl refl
after_unlink-Nothing size b s fds ms (throw e) = unfold created in (refl, refl)

after_open-Nothing :
    (size : ℕ) (is_owner : Bool) (s : System) (fds ms : List ℕ) (opens : Answer)
    → Nothing fds ms (life (created is_owner size s (after_open is_owner s opens)))
unfolding after_open
after_open-Nothing size b s fds ms (ok fd) =
    opened-Nothing true size b s fds ms (ok fd) s.truncates s.maps refl refl
after_open-Nothing size b s fds ms (throw e) = elim (Bool-cases (e == eexist)) [
  | inl exists ↦ rw exists (after_unlink-Nothing size b s fds ms s.unlinks)
  | inr other ↦
      rw other (opened-Nothing true size b s fds ms (throw e) s.truncates s.maps refl refl)
]

-- However the system answers, an object that is constructed and destroyed, or whose constructor
-- throws, has closed each file that it opened and unmapped each mapping that it made.
pub no_leak :
    (size : ℕ) (is_owner : Bool) (s : System) (fds ms : List ℕ)
    → (open_files fds (life (construct size is_owner s)) ≡ fds)
      × (mappings ms (life (construct size is_owner s)) ≡ ms)
unfolding construct create_shared_memory
no_leak size is_owner s fds ms = after_open-Nothing size is_owner s fds ms s.opens
