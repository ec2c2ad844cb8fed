-- ===== src/Ipc/Darwin/Objects/Lifetime.antt =====
-- src/ipc/darwin/RobustMutex.cpp and ConditionVariable.cpp: what is made is destroyed, and while its
-- memory is there.
use libazul.Base.{
  ℕ, ◌≡◌, refl, ap, ap₂, ◌∙◌, Bool, true, false, List, [], ◌∷◌, ◌++◌, sym, subst, append_assoc,
  some, Result, ok, throw,
}
use libazul.Utils.Disposer.{destroy}
use libazul.Ipc.Objects.{
  file_open, file_close, in_memory, memory_calls, nothing_live, live_after, live_after-then,
  memory_calls-append, memory_calls-in_memory, live_after-in_memory,
}
use libazul.Ipc.Darwin.SharedMemory.{System, SystemCall, SharedMemory, Ran, construct, release}
use libazul.Ipc.Darwin.SharedMemory.Release.{after, after-append, life, all_released}
use libazul.Ipc.Darwin.Objects.{
  Answers, ObjectError, Calls, Mutex, Local, create_local_mutex, file_calls, after_fopen,
  with_local, construct_mutex, release_members, Condition, with_mutex, with_queue_memory,
  construct_condition, release_condition, storage_size,
}
use libazul.Ipc.Darwin.Objects.Local.{
  Restores, Clean, in_memory-Clean, live_with, disposer_of, Holding, LocalMade, last_calls,
  Holding-Clean, Holding-more, create_local_mutex-LocalMade,
}

-- The calls of a mutex's whole life, which ends at once where the constructor throws.
abbrev pub mutex_life : Calls × Result ObjectError Mutex → Calls
mutex_life (calls, ok x) = calls ++ release_members x
mutex_life (calls, throw e) = calls

file_calls-memory : (b finds : Bool) → memory_calls (file_calls b finds) ≡ []
file_calls-memory false finds = refl
file_calls-memory true true = refl
file_calls-memory true false = refl

file_calls-live :
    (b finds : Bool) (c : Bool)
    → live_after (file_calls b finds) (live_with c false) ≡ some (live_with c false)
file_calls-live false finds c = refl
file_calls-live true true c = refl
file_calls-live true false c = refl

after_fopen-Clean :
    (b : Bool) (m : SharedMemory) (calls : Calls) (r : Result ℕ ℕ)
    → Holding b false m calls
    → Clean (mutex_life (after_fopen calls m (disposer_of b) r))
unfolding after_fopen release_members destroy
after_fopen-Clean b m calls (throw e) h =
    Holding-Clean b m (calls ++ file_open false ∷ [])
      (Holding-more b b false false m calls (file_open false ∷ []) refl refl h)
after_fopen-Clean b m calls (ok f) h =
    subst Clean
      (append_assoc calls (file_open true ∷ file_close ∷ []) (last_calls b m)
        ∙ sym (append_assoc calls (file_open true ∷ []) (file_close ∷ last_calls b m)))
      (Holding-Clean b m (calls ++ file_open true ∷ file_close ∷ [])
        (Holding-more b b false false m calls (file_open true ∷ file_close ∷ []) refl refl h))

with_local-Clean :
    (b : Bool) (a : Answers) (r : Local) → LocalMade r → Clean (mutex_life (with_local b a r))
unfolding with_local
with_local-Clean b a (calls, ok (m, d)) (c, e, h) = rw e (
    after_fopen-Clean c m (calls ++ file_calls b a.stat_finds) a.opens (
      Holding-more c c false false m calls (file_calls b a.stat_finds)
        (file_calls-memory b a.stat_finds) (file_calls-live b a.stat_finds c) h))
with_local-Clean b a (calls, throw e) h = h

mutex_life-Clean :
    (size : ℕ) (b : Bool) (a : Answers) → Clean (mutex_life (construct_mutex size b a))
unfolding construct_mutex
mutex_life-Clean size b a =
    with_local-Clean b a (create_local_mutex size b a) (create_local_mutex-LocalMade size b a)

-- The calls of the whole life of a condition variable.
abbrev pub condition_life : Calls × Result ObjectError Condition → Calls
condition_life (calls, ok x) = calls ++ release_condition x
condition_life (calls, throw e) = calls

-- The life of a mutex goes in between that of other memory.
around-Clean :
    (calls : List SystemCall) (m : SharedMemory) (inner : Calls)
    → Restores (calls ++ release m)
    → Clean inner
    → Clean (in_memory calls ++ (inner ++ in_memory (release m)))
around-Clean calls m inner h (k, l) = (
  λ w.
      ap (λ zs. after zs w)
        (memory_calls-append (in_memory calls) (inner ++ in_memory (release m))
          ∙ ap₂ ◌++◌ (memory_calls-in_memory calls) (
              memory_calls-append inner (in_memory (release m))
              ∙ ap (λ zs. memory_calls inner ++ zs) (memory_calls-in_memory (release m))))
      ∙ after-append calls (memory_calls inner ++ release m) w
      ∙ after-append (memory_calls inner) (release m) (after calls w)
      ∙ ap (after (release m)) (k (after calls w))
      ∙ sym (after-append calls (release m) w)
      ∙ h w,
  live_after-then (in_memory calls) (inner ++ in_memory (release m)) nothing_live nothing_live
      (live_after-in_memory calls false false)
      (live_after-then inner (in_memory (release m)) nothing_live nothing_live l
        (live_after-in_memory (release m) false false)),
)

with_mutex-Clean :
    (calls : List SystemCall) (m : SharedMemory) (r : Calls × Result ObjectError Mutex)
    → Restores (calls ++ release m)
    → Clean (mutex_life r)
    → Clean (condition_life (with_mutex calls m r))
unfolding with_mutex release_condition
with_mutex-Clean calls m (more, ok x) h k =
    subst Clean
      (ap (λ zs. in_memory calls ++ zs)
          (append_assoc more (release_members x) (in_memory (release m)))
        ∙ sym (append_assoc (in_memory calls) more (release_members x ++ in_memory (release m))))
      (around-Clean calls m (more ++ release_members x) h k)
with_mutex-Clean calls m (more, throw e) h k = around-Clean calls m more h k

with_queue_memory-Clean :
    (size : ℕ) (b : Bool) (a : Answers) (r : Ran SharedMemory)
    → Restores (life r)
    → Clean (condition_life (with_queue_memory size b a r))
unfolding with_queue_memory
with_queue_memory-Clean size b a (calls, ok m) h =
    with_mutex-Clean calls m (construct_mutex size b a) h (mutex_life-Clean size b a)
with_queue_memory-Clean size b a (calls, throw e) h = in_memory-Clean calls h

-- However the system answers, a mutex or a condition variable that is constructed and destroyed, or
-- whose constructor throws, leaves the files and the mappings that there were, also where the memory
-- of the mutex was missing and is made; it destroys the attributes and the mutex that it
-- initialised, the mutex before its memory, and closes the lock file that it opened.
pub mutexes_released :
    (size : ℕ) (is_owner : Bool) (s : System) (a : Answers)
    → Clean (mutex_life (construct_mutex size is_owner a))
      × Clean (condition_life (construct_condition size is_owner s a))
unfolding construct_condition
mutexes_released size is_owner s a = (
  mutex_life-Clean size is_owner a,
  with_queue_memory-Clean size is_owner a (construct storage_size is_owner s)
      (all_released storage_size is_owner s),
)
