-- ===== src/Ipc/Linux/ConditionVariable.antt =====
-- src/ipc/linux/ConditionVariable.cpp: the deadline of a timed wait, and how the waits end. What
-- the clock shows and what POSIX threads return are parameters. Times and time-outs are signed.
pub mod Deadline
mod Tests
use libazul.Base.{Bool, true, false, Result, ok, throw, if◌then◌else◌}
use libazul.Ipc.Linux.Integers.{ℤ, pos, ◌+ℤ◌, minus, scale, quotient, is_above}
use libazul.Ipc.Linux.Pthread.{
  Code, success, edeadlk, eownerdead, ebusy, eperm, enotrecoverable, einval, etimedout, other,
}
use libazul.Ipc.Linux.RobustMutex.{SyncError, not_initialized, failed}

pub record Timespec : Type 0 where
  pub tv_sec : ℤ
  pub tv_nsec : ℤ

pub data CvStatus : Type 0 where
  no_timeout timeout : CvStatus

-- From the test of the nanoseconds on.
carry : Timespec → Timespec
carry time =
    if is_above time.tv_nsec 1000000000
    then record { tv_sec = time.tv_sec +ℤ pos 1; tv_nsec = time.tv_nsec +ℤ minus (pos 1000000000) }
    else time

-- `time` is what `timespec_get` gives, `timeout_ms` is in milliseconds.
pub get_absolute_time : (time : Timespec) → (timeout_ms : ℤ) → Timespec
unfolding carry
get_absolute_time time timeout_ms = carry (record {
  tv_sec = time.tv_sec +ℤ additional_seconds;
  tv_nsec = time.tv_nsec +ℤ scale rest 1000000;
})
  where
    additional_seconds : ℤ
    additional_seconds = quotient timeout_ms 1000

    rest : ℤ
    rest = timeout_ms +ℤ minus (scale additional_seconds 1000)

module _ {W : Type 0} where
  -- `NotifyOne` and `NotifyAll`: `pthread_cond_signal` and `pthread_cond_broadcast`, which change who
  -- waits, are parameters. What they return is not looked at.
  abbrev pub signal_one : (pthread_cond_signal : W → Code × W) → W → W
  signal_one pthread_cond_signal w = (pthread_cond_signal w).1

  abbrev pub signal_all : (pthread_cond_broadcast : W → Code × W) → W → W
  signal_all pthread_cond_broadcast w = (pthread_cond_broadcast w).1

  pub facade_notify_one :
      (initialized : Bool) → (pthread_cond_signal : W → Code × W) → W → Result SyncError W
  facade_notify_one initialized pthread_cond_signal w =
      if initialized then ok (signal_one pthread_cond_signal w) else throw not_initialized

  pub facade_notify_all :
      (initialized : Bool) → (pthread_cond_broadcast : W → Code × W) → W → Result SyncError W
  facade_notify_all initialized pthread_cond_broadcast w =
      if initialized then ok (signal_all pthread_cond_broadcast w) else throw not_initialized

after_wait : Code → Result SyncError (Unit {0})
after_wait success = ok tt
after_wait edeadlk = ok tt
after_wait eownerdead = ok tt
after_wait ebusy = ok tt
after_wait eperm = ok tt
after_wait enotrecoverable = ok tt
after_wait einval = throw (failed einval)
after_wait etimedout = ok tt
after_wait (other n) = ok tt

-- `code` is what `pthread_cond_wait` returns.
pub wait : (initialized : Bool) → (code : Code) → Result SyncError (Unit {0})
unfolding after_wait
wait initialized code = if initialized then after_wait code else throw not_initialized

after_timedwait : Code → Result SyncError CvStatus
after_timedwait success = ok no_timeout
after_timedwait edeadlk = throw (failed edeadlk)
after_timedwait eownerdead = throw (failed eownerdead)
after_timedwait ebusy = throw (failed ebusy)
after_timedwait eperm = throw (failed eperm)
after_timedwait enotrecoverable = throw (failed enotrecoverable)
after_timedwait einval = throw (failed einval)
after_timedwait etimedout = ok timeout
after_timedwait (other n) = throw (failed (other n))

-- `timedwait` is `pthread_cond_timedwait` at the moment of the call.
pub wait_for :
    (initialized : Bool)
    → (timedwait : Timespec → Code) → (time : Timespec) → (timeout_ms : ℤ)
    → Result SyncError CvStatus
unfolding after_timedwait
wait_for initialized timedwait time timeout_ms =
    if initialized
    then after_timedwait (timedwait (get_absolute_time time timeout_ms))
    else throw not_initialized
