-- ===== src/Ipc/Linux/ConditionVariable/Tests.antt =====
-- Runs of the timed wait of src/ipc/linux.
use libazul.Base.{◌≡◌, ◌↔◌, ◌⊎◌, true, ok, ltb, if◌then◌else◌, arith, inl, refl}
use libazul.Ipc.Linux.Integers.{ℤ, pos, negsuc, ◌+ℤ◌, ◌≤ℤ◌, scale}
use libazul.Ipc.Linux.Pthread.{Code, success, einval}
use libazul.Ipc.Linux.ConditionVariable.{Timespec, no_timeout, timeout, get_absolute_time, wait_for}
use libazul.Ipc.Linux.ConditionVariable.Deadline.{
  total, IsNanoseconds, IsUsable, nanoseconds, get_absolute_time_lem, wait_for-returns,
}

abbrev half_past_five : Timespec
half_past_five = record { tv_sec = pos 5; tv_nsec = pos 500000000 }

-- 700 milliseconds ago.
abbrev before : ℤ
before = negsuc 699

-- A wait that is woken at once.
abbrev woken : ℤ → Code
woken (pos n) = if ltb n 1000000000 then success else einval
woken (negsuc n) = einval

abbrev wake : Timespec → Code
wake d = woken d.tv_nsec

wake-success : (z : ℤ) → IsNanoseconds z → woken z ≡ success
wake-success (pos n) (a, b) = ground (arith, b)
wake-success (negsuc n) (a, b) = absurd (omega (arith, a))

wait_for-returns_example :
    (wait_for true wake half_past_five (pos 1700) ≡ ok no_timeout)
    ⊎ ((wait_for true wake half_past_five (pos 1700) ≡ ok timeout)
        × (total half_past_five +ℤ scale (pos 1700) 1000000 ≤ℤ total half_past_five))
wait_for-returns_example =
    wait_for-returns wake half_past_five half_past_five (pos 1700)
      (λ d h. inl (wake-success d.tv_nsec h)) (refl, omega arith) (refl, omega arith)

get_absolute_time_lem_example :
    (total (get_absolute_time half_past_five before) ≡ total half_past_five +ℤ scale before 1000000)
    × (IsNanoseconds (get_absolute_time half_past_five before).tv_nsec
        ↔ IsUsable (nanoseconds half_past_five before))
get_absolute_time_lem_example = get_absolute_time_lem half_past_five before (refl, omega arith)

-- The nanoseconds of that deadline are negative.
before_runs : (get_absolute_time half_past_five before).tv_nsec ≡ negsuc 199999999
unfolding get_absolute_time
before_runs = refl
