-- ===== src/Ipc/Linux/ConditionVariable/Deadline.antt =====
-- src/ipc/linux/ConditionVariable.cpp: deadlines, and those at which a timed wait throws.
use libazul.Base.{
  ◌+◌, ◌%◌, ◌<◌, ◌≡◌, ◌↔◌, ◌⊎◌, refl, sym, subst, ◌∙◌, true, ok, throw, arith, inl, inr, ltb,
  Bool-cases,
}
use libazul.Ipc.Linux.Integers.{
  ℤ, pos, negsuc, ◌+ℤ◌, ◌≤ℤ◌, negate, minus, scale, quotient, is_above, above, below, one_sign,
  ℤ-ext, negate-parts, minus-parts, sum-parts, scale-parts, quotient-parts,
}
use libazul.Ipc.Linux.Pthread.{Code, success, einval, etimedout}
use libazul.Ipc.Linux.RobustMutex.{failed}
use libazul.Ipc.Linux.ConditionVariable.{
  Timespec, no_timeout, timeout, carry, get_absolute_time, wait_for, after_timedwait,
}

-- A moment in nanoseconds.
abbrev pub total : Timespec → ℤ
total t = scale t.tv_sec 1000000000 +ℤ t.tv_nsec

-- From zero on, and less than a second.
abbrev pub IsNanoseconds : ℤ → Type 0
IsNanoseconds z = (below z ≡ 0) × (above z < 1000000000)

-- The milliseconds of a time-out without the whole seconds, of the sign of the time-out.
abbrev pub remainder : ℤ → ℤ
remainder (pos n) = pos (n % 1000)
remainder (negsuc n) = negate ((n + 1) % 1000)

-- The nanoseconds of the clock and of the time-out together, without the whole seconds.
abbrev pub nanoseconds : Timespec → ℤ → ℤ
nanoseconds t ms = t.tv_nsec +ℤ scale (remainder ms) 1000000

-- They are not negative, and not exactly one second.
abbrev pub IsUsable : ℤ → Type 0
IsUsable z = (below z ≡ 0) × ¬ (above z ≡ 1000000000)

remainder-parts :
    (z : ℤ) → (above (remainder z) ≡ above z % 1000) × (below (remainder z) ≡ below z % 1000)
remainder-parts (pos n) = (refl, omega arith)
remainder-parts (negsuc n) =
    let (a, b) = negate-parts ((n + 1) % 1000) in (omega (arith, a), omega (arith, b))

-- What is left when the whole seconds are taken off is the remainder.
rest-remainder : (ms : ℤ) → ms +ℤ minus (scale (quotient ms 1000) 1000) ≡ remainder ms
rest-remainder ms =
    let q : ℤ = quotient ms 1000 in
    let (q₁, q₂) = quotient-parts ms 1000 in
    let (s₁, s₂) = scale-parts q 1000 in
    let (m₁, m₂) = minus-parts (scale q 1000) in
    let (r₁, r₂) = remainder-parts ms in
    ℤ-ext (ms +ℤ minus (scale q 1000)) (remainder ms)
      (omega (arith, q₁, q₂, s₁, s₂, m₁, m₂, r₁, r₂, sum-parts ms (minus (scale q 1000))))

carry-total : (t : Timespec) → total (carry t) ≡ total t
unfolding carry
carry-total t = elim (Bool-cases (is_above t.tv_nsec 1000000000)) [
  | inr n ↦ rw n refl
  | inl y ↦ rw y (carried (t.tv_sec +ℤ pos 1) (t.tv_nsec +ℤ minus (pos 1000000000)) refl refl)
]
  where
    carried :
        (s n : ℤ)
        → s ≡ t.tv_sec +ℤ pos 1
        → n ≡ t.tv_nsec +ℤ minus (pos 1000000000)
        → scale s 1000000000 +ℤ n ≡ total t
    carried s n e f =
        let (a₁, a₂) = scale-parts s 1000000000 in
        let (b₁, b₂) = scale-parts t.tv_sec 1000000000 in
        ℤ-ext (scale s 1000000000 +ℤ n) (total t) (
          omega (
            arith,
            a₁,
            a₂,
            b₁,
            b₂,
            sum-parts (scale s 1000000000) n,
            sum-parts (scale t.tv_sec 1000000000) t.tv_nsec,
            subst (λ x. above x + below t.tv_sec + 0 ≡ below x + above t.tv_sec + 1) (sym e)
                (sum-parts t.tv_sec (pos 1)),
            subst (λ x. above x + below t.tv_nsec + 1000000000 ≡ below x + above t.tv_nsec + 0)
                (sym f) (sum-parts t.tv_nsec (minus (pos 1000000000))),
          ))

-- The time before `carry`.
abbrev uncarried : Timespec → ℤ → Timespec
uncarried t ms = record {
  tv_sec = t.tv_sec +ℤ quotient ms 1000;
  tv_nsec = t.tv_nsec +ℤ scale (ms +ℤ minus (scale (quotient ms 1000) 1000)) 1000000;
}

uncarried-total : (t : Timespec) (ms : ℤ) → total (uncarried t ms) ≡ total t +ℤ scale ms 1000000
uncarried-total t ms = whole (quotient ms 1000)
  where
    whole :
        (q : ℤ)
        → scale (t.tv_sec +ℤ q) 1000000000
            +ℤ (t.tv_nsec +ℤ scale (ms +ℤ minus (scale q 1000)) 1000000)
          ≡ total t +ℤ scale ms 1000000
    whole q =
        let r : ℤ = ms +ℤ minus (scale q 1000) in
        let s : ℤ = t.tv_sec +ℤ q in
        let n : ℤ = t.tv_nsec +ℤ scale r 1000000 in
        let (a₁, a₂) = scale-parts s 1000000000 in
        let (b₁, b₂) = scale-parts t.tv_sec 1000000000 in
        let (c₁, c₂) = scale-parts r 1000000 in
        let (d₁, d₂) = scale-parts ms 1000000 in
        let (e₁, e₂) = scale-parts q 1000 in
        let (f₁, f₂) = minus-parts (scale q 1000) in
        ℤ-ext (scale s 1000000000 +ℤ n) (total t +ℤ scale ms 1000000) (
          omega (
            arith,
            a₁,
            a₂,
            b₁,
            b₂,
            c₁,
            c₂,
            d₁,
            d₂,
            e₁,
            e₂,
            f₁,
            f₂,
            sum-parts (scale s 1000000000) n,
            sum-parts t.tv_sec q,
            sum-parts t.tv_nsec (scale r 1000000),
            sum-parts ms (minus (scale q 1000)),
            sum-parts (total t) (scale ms 1000000),
            sum-parts (scale t.tv_sec 1000000000) t.tv_nsec,
          ))

-- The deadline is the time of the clock and the time-out together.
pub get_absolute_time-total :
    (t : Timespec) (ms : ℤ) → total (get_absolute_time t ms) ≡ total t +ℤ scale ms 1000000
unfolding get_absolute_time
get_absolute_time-total t ms = carry-total (uncarried t ms) ∙ uncarried-total t ms

carry-IsNanoseconds :
    (s n : ℤ)
    → above n < 2000000000
    → IsNanoseconds (carry (record { tv_sec = s; tv_nsec = n })).tv_nsec ↔ IsUsable n
unfolding carry
carry-IsNanoseconds s (negsuc n) l = ground arith
carry-IsNanoseconds s (pos n) l = elim (Bool-cases (ltb 1000000000 n)) [
  | inr small ↦ rw small (ground (arith, small))
  | inl big ↦ rw big (ground (arith, big, l))
]

-- On a clock that shows less than a second of nanoseconds, the deadline is a valid time exactly if
-- the nanoseconds of the clock and of the time-out are not negative and not one second.
pub get_absolute_time-IsValid :
    (t : Timespec) (ms : ℤ)
    → IsNanoseconds t.tv_nsec
    → IsNanoseconds (get_absolute_time t ms).tv_nsec ↔ IsUsable (nanoseconds t ms)
unfolding get_absolute_time
get_absolute_time-IsValid t ms (h₁, h₂) =
    rw (rest-remainder ms)
      (carry-IsNanoseconds (t.tv_sec +ℤ quotient ms 1000) (nanoseconds t ms) small)
  where
    small : above (nanoseconds t ms) < 2000000000
    small =
        let (r₁, r₂) = remainder-parts ms in
        let (s₁, s₂) = scale-parts (remainder ms) 1000000 in
        elim (one_sign (nanoseconds t ms)) [
          | inl z ↦ omega (arith, z)
          | inr z ↦
              omega (
                arith,
                z,
                h₁,
                h₂,
                r₁,
                r₂,
                s₁,
                s₂,
                sum-parts t.tv_nsec (scale (remainder ms) 1000000),
              )
        ]

-- On a clock that shows less than a second of nanoseconds, for a time-out of any sign: the deadline
-- is the time of the clock and the time-out together, and it is a valid time exactly if the
-- nanoseconds of the clock and of the time-out, without its whole seconds, are not negative and not
-- exactly one second.
pub get_absolute_time_lem :
    (t : Timespec) (ms : ℤ)
    → IsNanoseconds t.tv_nsec
    → (total (get_absolute_time t ms) ≡ total t +ℤ scale ms 1000000)
      × (IsNanoseconds (get_absolute_time t ms).tv_nsec ↔ IsUsable (nanoseconds t ms))
get_absolute_time_lem t ms h = (get_absolute_time-total t ms, get_absolute_time-IsValid t ms h)

-- `pthread_cond_timedwait` returns EINVAL on a time that is not valid. Then `WaitFor` throws where
-- the nanoseconds of the clock and of the time-out are negative or exactly one second.
pub wait_for-throws :
    (timedwait : Timespec → Code) (t : Timespec) (ms : ℤ)
    → ((d : Timespec) → ¬ IsNanoseconds d.tv_nsec → timedwait d ≡ einval)
    → IsNanoseconds t.tv_nsec
    → ¬ IsUsable (nanoseconds t ms)
    → wait_for true timedwait t ms ≡ throw (failed einval)
unfolding wait_for after_timedwait
wait_for-throws timedwait t ms law h n =
    rw (law (get_absolute_time t ms) (λ v. n ((get_absolute_time-IsValid t ms h).0 v))) refl

-- On a valid deadline `pthread_cond_timedwait` returns zero, or ETIMEDOUT once the deadline has
-- passed, and the clock shows less than a second of nanoseconds. Then `WaitFor`, for a time-out of
-- any sign, returns, and it tells a time-out only once the time-out has passed on the clock, if the
-- nanoseconds of the clock and of the time-out, without its whole seconds, are not negative and not
-- exactly one second.
pub wait_for-returns :
    (timedwait : Timespec → Code) (t later : Timespec) (ms : ℤ)
    → ((d : Timespec)
        → IsNanoseconds d.tv_nsec
        → (timedwait d ≡ success) ⊎ ((timedwait d ≡ etimedout) × (total d ≤ℤ total later)))
    → IsNanoseconds t.tv_nsec
    → IsUsable (nanoseconds t ms)
    → (wait_for true timedwait t ms ≡ ok no_timeout)
      ⊎ ((wait_for true timedwait t ms ≡ ok timeout) × (total t +ℤ scale ms 1000000 ≤ℤ total later))
unfolding wait_for after_timedwait
wait_for-returns timedwait t later ms law h n =
    elim (law (get_absolute_time t ms) ((get_absolute_time-IsValid t ms h).1 n)) [
      | inl e ↦ inl (rw e refl)
      | inr (e, p) ↦ inr (rw e refl, subst (λ z. z ≤ℤ total later) (get_absolute_time-total t ms) p)
    ]
