-- ===== src/Ipc/LockOrder.antt =====
-- src/ipc/darwin/ConditionVariable.cpp and win32/ConditionVariable.cpp: the order in which the members
-- take `_threadQueueMutex` and the mutex of the caller. A thread is the list of what it has still to
-- do; threads are numbers.
mod Deadlock
mod Tests
use libazul.Base.{
  ℕ, Bool, true, false, List, [], ◌∷◌, ◌++◌, Option, none, some, ◌==◌, if◌then◌else◌, update,
}

pub data Lock : Type 0 where
  queue_lock callers_lock : Lock

-- `sleep` waits until the thread is woken, `wake` wakes a thread.
pub data Operation : Type 0 where
  take give : Lock → Operation
  sleep : Operation
  wake : ℕ → Operation

pub record Threads : Type 0 where
  pub queue_owner : Option ℕ
  pub callers_owner : Option ℕ
  pub woken : ℕ → Bool
  pub rest : ℕ → List Operation

-- `Wait` and `WaitFor`, by a thread that has the mutex of the caller.
abbrev pub wait_operations : List Operation
wait_operations =
    take queue_lock
    ∷ give callers_lock
    ∷ give queue_lock
    ∷ sleep
    ∷ take queue_lock
    ∷ take callers_lock
    ∷ give queue_lock
    ∷ []

-- `NotifyOne`
abbrev pub notify_operations : ℕ → List Operation
notify_operations t = take queue_lock ∷ wake t ∷ give queue_lock ∷ []

-- What a program does under the mutex that it waits with.
abbrev pub under_lock : List Operation → List Operation
under_lock os = take callers_lock ∷ (os ++ give callers_lock ∷ [])

abbrev owner : Lock → Threads → Option ℕ
owner queue_lock s = s.queue_owner
owner callers_lock s = s.callers_owner

abbrev set_owner : Lock → Option ℕ → Threads → Threads
set_owner queue_lock o s = record s { queue_owner = o }
set_owner callers_lock o s = record s { callers_owner = o }

abbrev is_free : Option ℕ → Bool
is_free none = true
is_free (some t) = false

abbrev is_of : ℕ → Option ℕ → Bool
is_of t none = false
is_of t (some u) = u == t

-- One operation of a thread, which can be made or not.
abbrev operate : ℕ → Operation → Threads → Option Threads
operate t (take l) s = if is_free (owner l s) then some (set_owner l (some t) s) else none
operate t (give l) s = if is_of t (owner l s) then some (set_owner l none s) else none
operate t sleep s = if s.woken t then some (record s { woken = update s.woken t false }) else none
operate t (wake u) s = some (record s { woken = update s.woken u true })

abbrev advance : ℕ → List Operation → Threads → Option Threads
advance t [] s = none
advance t (o ∷ os) s = operate t o (record s { rest = update s.rest t os })

abbrev pub step : ℕ → Threads → Option Threads
step t s = advance t (s.rest t) s

abbrev and_then : Option Threads → (Threads → Option Threads) → Option Threads
and_then none f = none
and_then (some s) f = f s

-- The threads go on in the order given.
abbrev pub run : List ℕ → Threads → Option Threads
run [] s = some s
run (t ∷ ts) s = and_then (step t s) (run ts)
