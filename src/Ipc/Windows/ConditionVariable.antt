-- ===== src/Ipc/Windows/ConditionVariable.antt =====
-- src/ipc/win32/ConditionVariable.cpp: the waiters in a queue, each with a semaphore of its own.
-- What a member does under `_threadQueueMutex` is one step. A
-- member gives the state that it leaves, also where it throws.
pub mod Notify
pub mod Waiting
mod Tests
use libazul.Base.{
  ℕ, zero, suc, ◌+◌, ◌-◌, ◌≤◌, ◌≡◌, Bool, true, false, Result, ok, throw, ◌>>=◌, ltb, ◌==◌,
  if◌then◌else◌, update,
}
use libazul.Ipc.Queue.{Queue, QueueError, ItemEq, front, pop, push_back, remove}

-- The semaphores of the system, one for each thread, of a count of one at most. `create` opens the
-- one that is there; one that is not there has the count zero; where it fails it gives the value of
-- `GetLastError`. `try_wait` waits for no time.
pub record Semaphores (K : Type 0) : Type 0 where
  pub value : K → ℕ → ℕ
  pub create : K → ℕ → Result ℕ K
  pub try_wait : K → ℕ → K
  pub release : K → ℕ → K
  pub value_law : (k : K) (t : ℕ) → value k t ≤ 1
  pub create_law : (k k' : K) (t u : ℕ) → create k t ≡ ok k' → value k' u ≡ value k u
  pub try_wait_law :
      (k : K) (t u : ℕ) → value (try_wait k t) u ≡ (if t == u then value k u - 1 else value k u)
  pub release_law : (k : K) (t u : ℕ) → value (release k t) u ≡ (if t == u then 1 else value k u)

-- What the members throw; `out_of_fuel` is the model's own.
pub data ConditionError : Type 0 where
  queue_error : QueueError → ConditionError
  wait_failed : ConditionError
  create_semaphore_failed : ℕ → ConditionError
  out_of_fuel not_initialized : ConditionError

-- `known` tells which threads are in `_semaphores`.
pub record Condition (K : Type 0) : Type 0 where
  pub queue : Queue ℕ
  pub known : ℕ → Bool
  pub kernel : K

-- How a wait for a semaphore ends.
pub data WaitResult : Type 0 where
  wait_object_0 wait_timeout wait_error : WaitResult

pub data CvStatus : Type 0 where
  no_timeout timeout : CvStatus

abbrev pub or_queue_error {ℓ} : {A : Type ℓ} → Result QueueError A → Result ConditionError A
or_queue_error (ok a) = ok a
or_queue_error (throw e) = throw (queue_error e)

-- What a member leaves, and what it returns or throws.
abbrev pub Ran : Type 0 → Type 0
Ran K = Condition K × Result ConditionError (Unit {0})

module _ {K : Type 0} (o : Semaphores K) where
  after_create : ℕ → Condition K → Result ℕ K → Result ConditionError (Condition K)
  after_create t s (ok k) = ok (record s { kernel = k; known = update s.known t true })
  after_create t s (throw e) = throw (create_semaphore_failed e)

  -- Where it throws, nothing has changed.
  pub get_semaphore : ℕ → Condition K → Result ConditionError (Condition K)
  unfolding after_create
  get_semaphore t s =
      if s.known t
      then ok (record s { kernel = o.try_wait s.kernel t })
      else after_create t s (o.create s.kernel t)

  abbrev pub or_leave : Condition K → Result ConditionError (Condition K) → Ran K
  or_leave s (ok s') = (s', ok tt)
  or_leave s (throw e) = (s, throw e)

  -- `ReleaseSemaphore(GetSemaphore(id), 1, nullptr)`
  pub wake : ℕ → Condition K → Ran K
  wake t s =
      or_leave s (do s' ← get_semaphore t s; ok (record s' { kernel = o.release s'.kernel t }))

  -- The thread of `Front` is off the queue before its semaphore is looked for.
  after_pop : Condition K → Result QueueError (ℕ × Queue ℕ) → Ran K
  after_pop s (ok (id, q)) = wake id (record s { queue = q })
  after_pop s (throw e) = (s, throw (queue_error e))

  -- `Front`, `Pop` and the release of the semaphore.
  pub notify_front : Condition K → Ran K
  unfolding after_pop
  notify_front s = after_pop s (do id ← front s.queue; q ← pop s.queue; ok (id, q))

  pub notify_one : Condition K → Ran K
  notify_one s = if ltb 0 s.queue.count then notify_front s else (s, ok tt)

  abbrev pub go_on : (Condition K → Ran K) → Ran K → Ran K
  go_on f (s, ok u) = f s
  go_on f (s, throw e) = (s, throw e)

  notify_rounds : ℕ → Condition K → Ran K
  notify_rounds zero s = (s, throw out_of_fuel)
  notify_rounds (suc n) s =
      if ltb 0 s.queue.count then go_on (notify_rounds n) (notify_front s) else (s, ok tt)

  pub notify_all : Condition K → Ran K
  unfolding notify_rounds
  notify_all s = notify_rounds (s.queue.count + 1) s

  after_push : Condition K → Result QueueError (Queue ℕ) → Ran K
  after_push s (ok q) = (record s { queue = q }, ok tt)
  after_push s (throw e) = (s, throw (queue_error e))

  after_semaphore : ℕ → Condition K → Result ConditionError (Condition K) → Ran K
  unfolding after_push
  after_semaphore t s (ok s') = after_push s' (push_back s'.queue t)
  after_semaphore t s (throw e) = (s, throw e)

  -- `Wait` and `WaitFor` up to the wait for the semaphore.
  pub begin_wait : ℕ → Condition K → Ran K
  unfolding after_semaphore
  begin_wait t s = after_semaphore t s (get_semaphore t s)

  -- `Wait` after the wait for the semaphore.
  pub end_wait :
      ItemEq ℕ
      → ℕ
      → WaitResult
      → Condition K
      → Result ConditionError (Condition K × Result ConditionError (Unit {0}))
  end_wait e t wait_error s = do
    (q, _) ← or_queue_error (remove e s.queue t)
    ok (record s { queue = q }, throw wait_failed)
  end_wait e t wait_object_0 s = ok (s, ok tt)
  end_wait e t wait_timeout s = ok (s, ok tt)

  -- `WaitFor` after the wait for the semaphore, with what it returns or throws.
  pub end_wait_for :
      ItemEq ℕ
      → ℕ
      → WaitResult
      → Condition K
      → Result ConditionError (Condition K × Result ConditionError CvStatus)
  end_wait_for e t wait_error s = do
    (q, _) ← or_queue_error (remove e s.queue t)
    ok (record s { queue = q }, throw wait_failed)
  end_wait_for e t wait_object_0 s = ok (s, ok no_timeout)
  end_wait_for e t wait_timeout s = ok (s, ok timeout)

  module _ (initialized : Bool) where
    -- The members of the facade; `initialized` tells whether `_impl` is set. `Wait` and `WaitFor` are
    -- taken up to the wait for the semaphore.
    pub facade_notify_one : Condition K → Ran K
    facade_notify_one s = if initialized then notify_one s else (s, throw not_initialized)

    pub facade_notify_all : Condition K → Ran K
    facade_notify_all s = if initialized then notify_all s else (s, throw not_initialized)

    pub facade_begin_wait : ℕ → Condition K → Ran K
    facade_begin_wait t s = if initialized then begin_wait t s else (s, throw not_initialized)
