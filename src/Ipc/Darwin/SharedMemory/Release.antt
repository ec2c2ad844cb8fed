-- ===== src/Ipc/Darwin/SharedMemory/Release.antt =====
-- src/ipc/darwin/SharedMemory.cpp: nothing that was opened or mapped is left over.
use libazul.Base.{
  ℕ, ◌≡◌, refl, ap, ◌∙◌, Bool, true, false, List, [], ◌∷◌, ◌++◌, none, some, ok, throw, ◌==◌,
  if◌then◌else◌, Bool-cases, inl, inr, arith,
}
use libazul.Utils.Disposer.{Disposer, set, empty, destroy}
use libazul.Ipc.Darwin.SharedMemory.{
  Answer, System, SystemCall, shm_open, shm_unlink, fstat, ftruncate, mmap, munmap, close, enoent,
  eexist, SharedMemory, Ran, close_and_unlink, create_shared_memory, allocate_shared_memory,
  construct, release, opened, after_open, after_unlink, after_encode, after_truncate, after_fstat,
  mapped, allocated, created,
}

-- The file descriptors that are open, and the mappings that are there.
pub record Resources : Type 0 where
  pub files : List ℕ
  pub mappings : List ℕ

abbrev remove_first : ℕ → List ℕ → List ℕ
remove_first x [] = []
remove_first x (y ∷ ys) = if x == y then ys else y ∷ remove_first x ys

abbrev pub effect : SystemCall → Resources → Resources
effect (shm_open none) w = w
effect (shm_open (some fd)) w = record w { files = fd ∷ w.files }
effect shm_unlink w = w
effect (fstat fd) w = w
effect (ftruncate fd) w = w
effect (mmap none) w = w
effect (mmap (some a)) w = record w { mappings = a ∷ w.mappings }
effect (munmap a) w = record w { mappings = remove_first a w.mappings }
effect (close fd) w = record w { files = remove_first fd w.files }

abbrev pub after : List SystemCall → Resources → Resources
after [] w = w
after (c ∷ cs) w = after cs (effect c w)

pub after-append :
    (xs ys : List SystemCall) (w : Resources) → after (xs ++ ys) w ≡ after ys (after xs w)
after-append [] ys w = refl
after-append (x ∷ xs) ys w = after-append xs ys (effect x w)

-- The calls of an object's whole life, which ends at once where the constructor throws.
abbrev pub life : Ran SharedMemory → List SystemCall
life (calls, ok m) = calls ++ release m
life (calls, throw x) = calls

==-refl : (n : ℕ) → (n == n) ≡ true
==-refl n = ground arith

abbrev with_file : ℕ → Resources → Resources
with_file fd w = record w { files = fd ∷ w.files }

abbrev with_mapping : ℕ → Resources → Resources
with_mapping a w = record w { mappings = a ∷ w.mappings }

after-close :
    (b : Bool) (fd : ℕ) (w : Resources) → after (close_and_unlink b fd) (with_file fd w) ≡ w
after-close true fd w = rw (==-refl fd) refl
after-close false fd w = rw (==-refl fd) refl

after-munmap : (a : ℕ) (w : Resources) → after (munmap a ∷ []) (with_mapping a w) ≡ w
after-munmap a w = rw (==-refl a) refl

-- `AllocateSharedMemory` makes the mapping that its disposer takes away, or none.
abbrev Maps : Ran (ℕ × Disposer SystemCall) → Type 0
Maps (calls, ok (a, e)) =
    (e ≡ set empty (munmap a ∷ [])) × ((w : Resources) → after calls w ≡ with_mapping a w)
Maps (calls, throw x) = (w : Resources) → after calls w ≡ w

mapped-Maps :
    (calls : List SystemCall) (r : Answer)
    → ((w : Resources) → after calls w ≡ w)
    → Maps (mapped calls r)
unfolding mapped
mapped-Maps calls (ok a) h =
    (refl, λ w. after-append calls (mmap (some a) ∷ []) w ∙ ap (with_mapping a) (h w))
mapped-Maps calls (throw e) h = λ w. after-append calls (mmap none ∷ []) w ∙ h w

after_truncate-Maps : (s : System) (fd : ℕ) (r : Answer) → Maps (after_truncate s fd r)
unfolding after_truncate
after_truncate-Maps s fd (ok r) = mapped-Maps (fstat fd ∷ ftruncate fd ∷ []) s.maps (λ w. refl)
after_truncate-Maps s fd (throw e) = λ w. refl

after_fstat-Maps : (s : System) (fd : ℕ) (r : Answer) → Maps (after_fstat s fd r)
unfolding after_fstat
after_fstat-Maps s fd (ok n) = elim (Bool-cases (n == 0)) [
  | inl m ↦ rw m (after_truncate-Maps s fd s.truncates)
  | inr d ↦ rw d (mapped-Maps (fstat fd ∷ []) s.maps (λ w. refl))
]
after_fstat-Maps s fd (throw e) = mapped-Maps (fstat fd ∷ []) s.maps (λ w. refl)

allocate-Maps : (b : Bool) (s : System) (fd : ℕ) → Maps (allocate_shared_memory b s fd)
unfolding allocate_shared_memory
allocate-Maps true s fd = after_fstat-Maps s fd s.fstats
allocate-Maps false s fd = mapped-Maps [] s.maps (λ w. refl)

-- The constructor from the allocation on, and the destructor.
allocated-after :
    (size fd : ℕ) (b : Bool) (calls : List SystemCall) (r : Ran (ℕ × Disposer SystemCall))
    (w : Resources)
    → after calls w ≡ with_file fd w
    → Maps r
    → after (life (allocated size fd (set empty (close_and_unlink b fd)) calls r)) w ≡ w
unfolding allocated release destroy
allocated-after size fd b calls (more, ok (a, e)) w h (same, m) =
    rw
      (
        same,
        after-append (calls ++ more) (munmap a ∷ close_and_unlink b fd) w,
        after-append calls more w,
        h,
        m (with_file fd w),
      )
      (ap (after (close_and_unlink b fd)) (after-munmap a (with_file fd w)) ∙ after-close b fd w)
allocated-after size fd b calls (more, throw x) w h m =
    rw
      (
        after-append (calls ++ more) (close_and_unlink b fd) w,
        after-append calls more w,
        h,
        m (with_file fd w),
      )
      (after-close b fd w)

-- `CreateSharedMemory` opens the file that its disposer closes, or none.
abbrev Opens : Bool → Ran (ℕ × Disposer SystemCall) → Type 0
Opens b (calls, ok (fd, d)) =
    (d ≡ set empty (close_and_unlink b fd)) × ((w : Resources) → after calls w ≡ with_file fd w)
Opens b (calls, throw x) = (w : Resources) → after calls w ≡ w

opened-Opens :
    (b : Bool) (calls : List SystemCall) (r : Answer)
    → ((w : Resources) → after calls w ≡ w)
    → Opens b (opened b calls r)
unfolding opened
opened-Opens b calls (ok fd) h =
    (refl, λ w. after-append calls (shm_open (some fd) ∷ []) w ∙ ap (with_file fd) (h w))
opened-Opens b calls (throw e) h = λ w. after-append calls (shm_open none ∷ []) w ∙ h w

after_unlink-Opens :
    (b : Bool) (s : System) (calls : List SystemCall) (r : Answer)
    → ((w : Resources) → after calls w ≡ w)
    → Opens b (after_unlink b s calls r)
unfolding after_unlink
after_unlink-Opens b s calls (ok r) h =
    opened-Opens b (calls ++ shm_open none ∷ shm_unlink ∷ []) s.again
      (λ w. after-append calls (shm_open none ∷ shm_unlink ∷ []) w ∙ h w)
after_unlink-Opens b s calls (throw e) h =
    λ w. after-append calls (shm_open none ∷ shm_unlink ∷ []) w ∙ h w

after_open-Opens :
    (b : Bool) (s : System) (calls : List SystemCall) (r : Answer)
    → ((w : Resources) → after calls w ≡ w)
    → Opens b (after_open b s calls r)
unfolding after_open
after_open-Opens b s calls (ok fd) h = opened-Opens b calls (ok fd) h
after_open-Opens b s calls (throw e) h = elim (Bool-cases (e == enoent)) [
  | inl m ↦ rw m (λ w. after-append calls (shm_open none ∷ []) w ∙ h w)
  | inr d ↦ elim (Bool-cases (e == eexist)) [
    | inl x ↦ rw (d, x) (after_unlink-Opens b s calls s.unlinks h)
    | inr x ↦ rw (d, x) (opened-Opens b calls (throw e) h)
  ]
]

after_encode-Opens : (b : Bool) (s : System) (r : Answer) → Opens b (after_encode b s r)
unfolding after_encode
after_encode-Opens true s (ok n) = after_open-Opens true s (shm_unlink ∷ []) s.opens (λ w. refl)
after_encode-Opens false s (ok n) = after_open-Opens false s [] s.opens (λ w. refl)
after_encode-Opens b s (throw e) = λ w. refl

created-after :
    (size : ℕ) (b : Bool) (s : System) (r : Ran (ℕ × Disposer SystemCall)) (w : Resources)
    → Opens b r
    → after (life (created b size s r)) w ≡ w
unfolding created
created-after size b s (calls, ok (fd, d)) w (same, h) =
    rw same (
      allocated-after size fd b calls (allocate_shared_memory b s fd) w (h w)
        (allocate-Maps b s fd))
created-after size b s (calls, throw x) w h = h w

-- However the system answers, and whatever was open and mapped before: an object that is
-- constructed and destroyed, or whose constructor throws, has closed each file that it opened and
-- unmapped each mapping that it made.
pub all_released :
    (size : ℕ) (is_owner : Bool) (s : System) (w : Resources)
    → after (life (construct size is_owner s)) w ≡ w
unfolding construct create_shared_memory
all_released size is_owner s w =
    created-after size is_owner s (after_encode is_owner s s.encodes) w
      (after_encode-Opens is_owner s s.encodes)
