-- ===== src/Ipc/Darwin/ConditionVariable/Tests.antt =====
-- Runs of the condition variable of src/ipc/darwin over pipes that count their bytes.
use libazul.Base.{
  All, ℕ, ◌+◌, ◌≤◌, ◌≡◌, refl, Bool, true, false, [], ◌∷◌, none, some, ok, ◌==◌, ==_iff,
  if◌then◌else◌, update, arith,
}
use libazul.Ipc.Queue.Inv.{IsValid}
use libazul.Ipc.Queue.Refine.{contents}
use libazul.Ipc.Darwin.FiFo.{Pipes, bytes}
use libazul.Ipc.Darwin.ConditionVariable.{Condition, notify_all, wait_loop, ended, no_timeout}
use libazul.Ipc.Darwin.ConditionVariable.Notify.{HasMessage, notify_all-messages}
use libazul.Ipc.Darwin.ConditionVariable.Waiting.{wait_loop-total}

record Counts : Type 0 where
  pub there : ℕ → Bool
  pub count : ℕ → ℕ

abbrev made : ℕ → Counts → Counts
made t k = record { there = update k.there t true; count = update k.count t 0 }

write_there_lem : (t n : ℕ) (k : Counts) → n ≤ update k.count t (k.count t + n) t
write_there_lem t n k = ground arith

write_more_lem : (t n : ℕ) (k : Counts) (u : ℕ) → k.count u ≤ update k.count t (k.count t + n) u
write_more_lem t n k u = ground (arith, ==_iff t u)

abbrev counting : Pipes Counts
counting = record {
  exists = λ k t. k.there t;
  content = λ k t. k.count t;
  mkfifo = λ t k. if k.there t then none else some (made t k);
  opens = λ t k. k.there t;
  write = λ t n k. record k { count = update k.count t (k.count t + n) };
  remove = λ t k. record k { there = update k.there t false };
  mkfifo_there = λ t k e. rw e refl;
  mkfifo_new = λ t k e. (made t k, rw e refl, λ u. refl, λ u. refl);
  opens_law = λ t k. refl;
  write_exists = λ t n k u. refl;
  write_there = λ t n k l. write_there_lem t n k;
  write_others = λ t n k u d. rw d refl;
  write_more = λ t n k u. write_more_lem t n k u;
  remove_exists = λ t k u. refl;
  remove_others = λ t k u d. refl;
}

abbrev waiters : ℕ → ℕ
waiters i = if i == 0 then 4 else 6

-- Threads 4 and 6 wait, each with a pipe.
abbrev two_wait : Condition Counts
two_wait = record {
  queue = record { items = waiters; read_position = 0; write_position = 2; count = 2; size = 3 };
  kernel = record { there = λ t. if t == 4 then true else t == 6; count = λ t. 0 };
}

-- The same after the time-out of thread 4.
abbrev one_gone : Condition Counts
one_gone = record two_wait { kernel = record { there = λ t. t == 6; count = λ t. 0 } }

abbrev nobody_waits : Condition Counts
nobody_waits = record {
  queue = record { items = waiters; read_position = 0; write_position = 0; count = 0; size = 3 };
  kernel = record { there = λ t. false; count = λ t. 0 };
}

two-IsValid : IsValid two_wait.queue
two-IsValid = omega arith

notify_all-messages_example :
    (s' : Condition Counts) × (notify_all counting two_wait ≡ (s', ok tt))
    × (contents s'.queue ≡ [])
    × All (HasMessage counting s') (4 ∷ 6 ∷ [])
notify_all-messages_example = notify_all-messages counting two_wait two-IsValid (refl, (refl, tt))

-- A message that is read in two parts.
two_parts : wait_loop 4 (bytes 1 ∷ bytes 3 ∷ []) ≡ ended (ok no_timeout)
two_parts = wait_loop-total 4 (1 ∷ 3 ∷ [])
