-- ===== src/Ipc/Windows/ConditionVariable/Tests.antt =====
-- Runs of the condition variable of src/ipc/win32 over semaphores that are up or down.
use libazul.Base.{
  Result, ℕ, ◌≤◌, ◌≡◌, refl, throw, Bool, true, false, ok, ◌==◌, ==_iff, if◌then◌else◌, update,
  arith,
}
use libazul.Ipc.Queue.{ItemEq}
use libazul.Ipc.Queue.Inv.{IsValid}
use libazul.Ipc.Windows.ConditionVariable.{Semaphores, Condition}
use libazul.Ipc.Windows.ConditionVariable.Waiting.{Stolen, timed_out-steals}

abbrev height : Bool → ℕ
height true = 1
height false = 0

height_le : (b : Bool) → height b ≤ 1
height_le true = omega arith
height_le false = omega arith

-- A semaphore for thread 9 cannot be created.
abbrev created : (fails : Bool) → (ℕ → Bool) → Result ℕ (ℕ → Bool)
created true k = throw 8
created false k = ok k

created_same :
    (fails : Bool) (k k' : ℕ → Bool) (u : ℕ)
    → created fails k ≡ ok k'
    → height (k' u) ≡ height (k u)
created_same true k k' u e = absurd (cc)
created_same false k k' u e = let same : k ≡ k' = cc in rw same refl

abbrev semaphores : Semaphores (ℕ → Bool)
semaphores = record {
  value = λ k t. height (k t);
  create = λ k t. created (t == 9) k;
  try_wait = λ k t. update k t false;
  release = λ k t. update k t true;
  value_law = λ k t. height_le (k t);
  create_law = λ k k' t u e. created_same (t == 9) k k' u e;
  try_wait_law = λ k t u. ground (arith, height_le (k u));
  release_law = λ k t u. ground arith;
}

-- Threads 4 and 6 wait.
abbrev waiters : ℕ → ℕ
waiters i = if i == 0 then 4 else 6

abbrev two_wait : Condition (ℕ → Bool)
two_wait = record {
  queue = record { items = waiters; read_position = 0; write_position = 2; count = 2; size = 3 };
  known = λ t. true;
  kernel = λ t. false;
}

abbrev nobody_waits : Condition (ℕ → Bool)
nobody_waits = record {
  queue = record { items = waiters; read_position = 0; write_position = 0; count = 0; size = 3 };
  known = λ t. false;
  kernel = λ t. false;
}

nobody-IsValid : IsValid nobody_waits.queue
nobody-IsValid = omega arith

abbrev nat_eq : ItemEq ℕ
nat_eq = record { beq = λ a b. a == b; beq_iff = ==_iff }

timed_out-steals_example : Stolen semaphores nat_eq 4 6 nobody_waits
timed_out-steals_example =
    timed_out-steals semaphores nat_eq 4 6 nobody_waits nobody-IsValid refl (omega arith) refl
      (λ k. (k, refl)) (λ k. (k, refl)) (λ h. absurd (cc)) (λ h. absurd (cc))
