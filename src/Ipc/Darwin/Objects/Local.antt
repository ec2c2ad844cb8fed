-- ===== src/Ipc/Darwin/Objects/Local.antt =====
-- src/ipc/darwin/RobustMutex.cpp: what the mutex of the process leaves of what it was made from.
use libazul.Base.{
  ℕ, ◌≡◌, refl, ap, ◌∙◌, Bool, true, false, List, [], ◌∷◌, ◌++◌, append-nil, append_assoc, some, ok,
  throw, Bool-cases, inl, inr, ◌==◌,
}
use libazul.Utils.Disposer.{Disposer, empty, set, destroy}
use libazul.Ipc.Objects.{
  error_check, process_shared, ObjectCall, object_destroy, in_memory, make_object, memory_calls,
  Live, nothing_live, live_after, live_after-then, memory_calls-append, memory_calls-in_memory,
  memory_calls-make_object, live_after-in_memory, live_after-make_object,
}
use libazul.Ipc.Darwin.SharedMemory.{
  SystemCall, encode_failed, shm_unlink_failed, shm_open_failed, ftruncate_failed, mmap_failed,
  resource_missing, not_initialized, SharedMemory, Ran, construct, release,
}
use libazul.Ipc.Darwin.SharedMemory.Release.{Resources, after, after-append, life, all_released}
use libazul.Ipc.Darwin.Objects.{
  Answers, Calls, Local, init_local_mutex, with_memory, after_first_try, create_local_mutex,
}

abbrev pub live_with : Bool → Bool → Live
live_with b f = record { attributes = false; object = b; file = f }

-- The calls on the memory leave the files and mappings that there were.
abbrev pub Restores : List SystemCall → Type 0
Restores cs = (w : Resources) → after cs w ≡ w

Restores-append : (xs ys : List SystemCall) → Restores xs → Restores ys → Restores (xs ++ ys)
Restores-append xs ys h k w = after-append xs ys w ∙ ap (after ys) (h w) ∙ k w

-- All the calls can be made, and they leave nothing.
abbrev pub Clean : Calls → Type 0
Clean calls =
    ((w : Resources) → after (memory_calls calls) w ≡ w)
    × (live_after calls nothing_live ≡ some nothing_live)

pub in_memory-Clean : (cs : List SystemCall) → Restores cs → Clean (in_memory cs)
in_memory-Clean cs h = (
  λ w. ap (λ zs. after zs w) (memory_calls-in_memory cs) ∙ h w,
  live_after-in_memory cs false false,
)

abbrev pub disposer_of : Bool → Disposer (ObjectCall SystemCall)
disposer_of true = set empty (object_destroy ∷ [])
disposer_of false = empty

-- The object is there if `b` says so, the file if `f` does, and the memory `m` is to be released.
abbrev pub Holding : (b f : Bool) → SharedMemory → Calls → Type 0
Holding b f m calls =
    (live_after calls nothing_live ≡ some (live_with b f))
    × Restores (memory_calls calls ++ release m)

-- What `CreateLocalMutex` leaves.
abbrev pub LocalMade : Local → Type 0
LocalMade (calls, ok (m, d)) = (b : Bool) × (d ≡ disposer_of b) × Holding b false m calls
LocalMade (calls, throw e) = Clean calls

-- The members that are there are destroyed.
abbrev pub last_calls : (b : Bool) → SharedMemory → Calls
last_calls b m = destroy (disposer_of b) ++ in_memory (release m)

last_calls-memory : (b : Bool) (m : SharedMemory) → memory_calls (last_calls b m) ≡ release m
unfolding destroy
last_calls-memory true m = memory_calls-in_memory (release m)
last_calls-memory false m = memory_calls-in_memory (release m)

last_calls-live :
    (b : Bool) (m : SharedMemory)
    → live_after (last_calls b m) (live_with b false) ≡ some nothing_live
unfolding destroy
last_calls-live true m = live_after-in_memory (release m) false false
last_calls-live false m = live_after-in_memory (release m) false false

pub Holding-Clean :
    (b : Bool) (m : SharedMemory) (calls : Calls)
    → Holding b false m calls
    → Clean (calls ++ last_calls b m)
Holding-Clean b m calls (l, h) = (
  λ w.
      ap (λ zs. after zs w)
        (memory_calls-append calls (last_calls b m)
          ∙ ap (λ zs. memory_calls calls ++ zs) (last_calls-memory b m))
      ∙ h w,
  live_after-then calls (last_calls b m) nothing_live (live_with b false) l (last_calls-live b m),
)

-- Calls that are not about the memory.
pub Holding-more :
    (b c f g : Bool) (m : SharedMemory) (calls more : Calls)
    → memory_calls more ≡ []
    → live_after more (live_with b f) ≡ some (live_with c g)
    → Holding b f m calls
    → Holding c g m (calls ++ more)
Holding-more b c f g m calls more e k (l, h) = (
  live_after-then calls more nothing_live (live_with b f) l k,
  λ w.
      ap (λ zs. after (zs ++ release m) w)
        (memory_calls-append calls more
          ∙ ap (λ zs. memory_calls calls ++ zs) e
          ∙ append-nil (memory_calls calls))
      ∙ h w,
)

init_local_mutex-LocalMade :
    (init : ℕ) (calls : List SystemCall) (m : SharedMemory)
    → Restores (calls ++ release m)
    → LocalMade (init_local_mutex init calls m)
unfolding init_local_mutex destroy
init_local_mutex-LocalMade init calls m h = elim (Bool-cases (init == 0)) [
  | inl e ↦ rw e (true, refl, made true)
  | inr e ↦ rw e (
      Holding-Clean false m
        (in_memory calls ++ make_object (error_check ∷ process_shared ∷ []) false) (made false))
]
  where
    kept : Holding false false m (in_memory calls)
    kept = (
      live_after-in_memory calls false false,
      λ w. ap (λ zs. after (zs ++ release m) w) (memory_calls-in_memory calls) ∙ h w,
    )

    made :
        (b : Bool)
        → Holding b false m (in_memory calls ++ make_object (error_check ∷ process_shared ∷ []) b)
    made b =
        Holding-more false b false false m (in_memory calls)
          (make_object (error_check ∷ process_shared ∷ []) b)
          (memory_calls-make_object SystemCall (error_check ∷ process_shared ∷ []) b)
          (live_after-make_object SystemCall (error_check ∷ process_shared ∷ []) b false) kept

with_memory-LocalMade :
    (b : Bool) (init : ℕ) (calls : List SystemCall) (r : Ran SharedMemory)
    → Restores calls
    → Restores (life r)
    → LocalMade (with_memory b init calls r)
unfolding with_memory destroy
with_memory-LocalMade true init calls (more, ok m) h k =
    init_local_mutex-LocalMade init (calls ++ more) m (λ w.
      ap (λ zs. after zs w) (append_assoc calls more (release m))
      ∙ Restores-append calls (more ++ release m) h k w)
with_memory-LocalMade false init calls (more, ok m) h k = (
  false,
  refl,
  (
    live_after-in_memory (calls ++ more) false false,
    λ w.
        ap (λ zs. after (zs ++ release m) w) (memory_calls-in_memory (calls ++ more))
        ∙ ap (λ zs. after zs w) (append_assoc calls more (release m))
        ∙ Restores-append calls (more ++ release m) h k w,
  ),
)
with_memory-LocalMade true init calls (more, throw e) h k =
    in_memory-Clean (calls ++ more) (Restores-append calls more h k)
with_memory-LocalMade false init calls (more, throw e) h k =
    in_memory-Clean (calls ++ more) (Restores-append calls more h k)

after_first_try-LocalMade :
    (size : ℕ) (b : Bool) (a : Answers) (r : Ran SharedMemory)
    → Restores (life r)
    → LocalMade (after_first_try size b a r)
unfolding after_first_try
after_first_try-LocalMade size b a (calls, throw resource_missing) h =
    with_memory-LocalMade true a.init calls (construct size true a.second) h
      (all_released size true a.second)
after_first_try-LocalMade size b a (calls, ok m) h =
    with_memory-LocalMade b a.init [] (calls, ok m) (λ w. refl) h
after_first_try-LocalMade size b a (calls, throw (encode_failed n)) h =
    with_memory-LocalMade b a.init [] (calls, throw (encode_failed n)) (λ w. refl) h
after_first_try-LocalMade size b a (calls, throw (shm_unlink_failed n)) h =
    with_memory-LocalMade b a.init [] (calls, throw (shm_unlink_failed n)) (λ w. refl) h
after_first_try-LocalMade size b a (calls, throw (shm_open_failed n)) h =
    with_memory-LocalMade b a.init [] (calls, throw (shm_open_failed n)) (λ w. refl) h
after_first_try-LocalMade size b a (calls, throw (ftruncate_failed n)) h =
    with_memory-LocalMade b a.init [] (calls, throw (ftruncate_failed n)) (λ w. refl) h
after_first_try-LocalMade size b a (calls, throw (mmap_failed n)) h =
    with_memory-LocalMade b a.init [] (calls, throw (mmap_failed n)) (λ w. refl) h
after_first_try-LocalMade size b a (calls, throw not_initialized) h =
    with_memory-LocalMade b a.init [] (calls, throw not_initialized) (λ w. refl) h

-- `CreateLocalMutex`, whether it finds the memory, makes it, or throws.
pub create_local_mutex-LocalMade :
    (size : ℕ) (b : Bool) (a : Answers) → LocalMade (create_local_mutex size b a)
unfolding create_local_mutex
create_local_mutex-LocalMade size b a =
    after_first_try-LocalMade size b a (construct size b a.first) (all_released size b a.first)
