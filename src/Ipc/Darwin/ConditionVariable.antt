-- ===== src/Ipc/Darwin/ConditionVariable.antt =====
-- src/ipc/darwin/ConditionVariable.cpp: the waiters in a queue, each with a pipe of its own. What a
-- member does under `_threadQueueMutex` is one step; the queue is in shared memory, so it stays as
-- it is when a member throws.
pub mod Notify
pub mod Waiting
mod Tests
use libazul.Base.{
  ℕ, zero, suc, ◌+◌, ◌-◌, ◌≡◌, Bool, true, false, List, [], ◌∷◌, Result, ok, throw, ltb,
  if◌then◌else◌,
}
use libazul.Ipc.Queue.{Queue, QueueError, front, pop, push_back}
use libazul.Ipc.Darwin.FiFo.{
  Pipes, FifoError, create_or_open_fifo, dispose_fifo, ReadEnd, waits, timed_out, bytes, throws,
}

-- What the members throw; `out_of_fuel` is the model's own.
pub data ConditionError : Type 0 where
  not_initialized out_of_fuel : ConditionError
  queue_error : QueueError → ConditionError
  fifo_error : FifoError → ConditionError

pub record Condition (K : Type 0) : Type 0 where
  pub queue : Queue ℕ
  pub kernel : K

-- A member that has ended, with the state that it leaves.
abbrev pub Ended : Type 0 → Type 0 → Type 0
Ended K A = Condition K × Result ConditionError A

pub data CvStatus : Type 0 where
  no_timeout timeout : CvStatus

-- `sizeof(FIFO_SYNC_MESSAGE)`
abbrev pub message_size : ℕ
message_size = 4

module _ {K : Type 0} (o : Pipes K) where
  written : ℕ → Condition K → Result FifoError K → Ended K Unit
  written t s (ok k) =
      (record s { kernel = dispose_fifo o t false (o.write t message_size k) }, ok tt)
  written t s (throw e) = (s, throw (fifo_error e))

  -- `GetFiFo(name_, id, false)` and `Write`
  wake : ℕ → Condition K → Ended K Unit
  unfolding written
  wake t s = written t s (create_or_open_fifo o t false s.kernel)

  popped_next : Condition K → ℕ → Result QueueError (Queue ℕ) → Ended K Unit
  unfolding wake
  popped_next s t (ok q) = wake t (record s { queue = q })
  popped_next s t (throw e) = (s, throw (queue_error e))

  front_next : Condition K → Result QueueError ℕ → Ended K Unit
  unfolding popped_next
  front_next s (ok t) = popped_next s t (pop s.queue)
  front_next s (throw e) = (s, throw (queue_error e))

  -- `Front`, `Pop`, and the message.
  notify_front : Condition K → Ended K Unit
  unfolding front_next
  notify_front s = front_next s (front s.queue)

  unfoldable pub notify_one : Condition K → Ended K Unit
  unfolding notify_front
  notify_one s = if ltb 0 s.queue.count then notify_front s else (s, ok tt)

  abbrev and_then : Ended K Unit → (Condition K → Ended K Unit) → Ended K Unit
  and_then (s, ok u) f = f s
  and_then (s, throw e) f = (s, throw e)

  notify_rounds : ℕ → Condition K → Ended K Unit
  unfolding notify_front
  notify_rounds zero s = (s, throw out_of_fuel)
  notify_rounds (suc n) s =
      if ltb 0 s.queue.count then and_then (notify_front s) (notify_rounds n) else (s, ok tt)

  unfoldable pub notify_all : Condition K → Ended K Unit
  unfolding notify_rounds
  notify_all s = notify_rounds (s.queue.count + 1) s

  -- A pipe that was made goes where `PushBack` throws.
  pushed_back : ℕ → Condition K → Result QueueError (Queue ℕ) → Ended K Unit
  pushed_back t s (ok q) = (record s { queue = q }, ok tt)
  pushed_back t s (throw e) =
      (record s { kernel = dispose_fifo o t true s.kernel }, throw (queue_error e))

  made : ℕ → Condition K → Result FifoError K → Ended K Unit
  unfolding pushed_back
  made t s (ok k) = pushed_back t (record s { kernel = k }) (push_back s.queue t)
  made t s (throw e) = (s, throw (fifo_error e))

  -- `Wait` and `WaitFor` up to the wait for the message.
  unfoldable pub begin_wait : ℕ → Condition K → Ended K Unit
  unfolding made
  begin_wait t s = made t s (create_or_open_fifo o t true s.kernel)

  -- They end: the pipe of the thread goes.
  unfoldable pub end_wait {ℓ} :
      {A : Type ℓ}
      → ℕ
      → Result ConditionError A
      → Condition K
      → Condition K × Result ConditionError A
  end_wait t r s = (record s { kernel = dispose_fifo o t true s.kernel }, r)

-- The loop of `Wait` and `WaitFor`, by what each read gives; it waits where the list ends.
pub data WaitEnd : Type 0 where
  waits_still : WaitEnd
  ended : Result ConditionError CvStatus → WaitEnd

unfoldable pub wait_loop : (to_read : ℕ) → List ReadEnd → WaitEnd
wait_loop zero rs = ended (ok no_timeout)
wait_loop (suc n) [] = waits_still
wait_loop (suc n) (waits ∷ rs) = waits_still
wait_loop (suc n) (timed_out ∷ rs) = ended (ok timeout)
wait_loop (suc n) (bytes k ∷ rs) = wait_loop (suc n - k) rs
wait_loop (suc n) (throws e ∷ rs) = ended (throw (fifo_error e))

module _ {K : Type 0} (o : Pipes K) (initialized : Bool) where
  -- The members of the facade; `initialized` tells whether `_impl` is set.
  unfoldable pub facade_notify_one : Condition K → Ended K Unit
  facade_notify_one s = if initialized then notify_one o s else (s, throw not_initialized)

  unfoldable pub facade_notify_all : Condition K → Ended K Unit
  facade_notify_all s = if initialized then notify_all o s else (s, throw not_initialized)

  -- `Wait` and `WaitFor`, up to the wait for the message.
  unfoldable pub facade_begin_wait : ℕ → Condition K → Ended K Unit
  facade_begin_wait t s = if initialized then begin_wait o t s else (s, throw not_initialized)
