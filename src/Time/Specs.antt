-- ===== src/Time/Specs.antt =====
-- Times as seconds and nanoseconds.
use l4ertl.Base.{◌∙◌, ap, arith, ◌≡◌, ◌*◌, ◌^◌, ℕ, ◌<◌, ◌+◌, ◌%◌, ◌/◌}
use l4ertl.Time.{nsecs_per_sec, duration_of, timespec_of, TimeSpec}

-- The words are those of a time that is not negative, with fewer than 10 ^ 9 nanoseconds.
abbrev pub IsNormal : TimeSpec → Type 0
IsNormal ts = (ts.tv_sec < 2 ^ 31) × (ts.tv_nsec < nsecs_per_sec)

duration_of-IsNormal :
    (ts : TimeSpec) → IsNormal ts → duration_of ts ≡ ts.tv_sec * nsecs_per_sec + ts.tv_nsec
unfolding duration_of
duration_of-IsNormal ts (hs, hn) = ground arith

seconds :
    (s n : ℕ) → s < 2 ^ 31 → n < 1000000000 → (s * 1000000000 + n) / 1000000000 % 4294967296 ≡ s
seconds s n hs hn = omega arith

nanoseconds : (s n : ℕ) → n < 1000000000 → (s * 1000000000 + n) % 1000000000 ≡ n
nanoseconds s n hn = omega arith

back :
    (d : ℕ)
    → d < 2 ^ 31 * 1000000000
    → d / 1000000000 % 4294967296 * 1000000000 + d % 1000000000 ≡ d
back d hd = omega arith

timespec_of-IsNormal : (d : ℕ) → d < 2 ^ 31 * nsecs_per_sec → IsNormal (timespec_of d)
unfolding timespec_of
timespec_of-IsNormal d hd = (omega arith, omega arith)

-- A time with 0 to 2 ^ 31 - 1 seconds and 0 to 10 ^ 9 - 1 nanoseconds comes back from its duration; a
-- duration below 2 ^ 31 seconds comes back from its seconds and nanoseconds, which are in those
-- bounds.
pub timespec_of-duration_of :
    (ts : TimeSpec) (d : ℕ)
    → IsNormal ts
    → d < 2 ^ 31 * nsecs_per_sec
    → (timespec_of (duration_of ts) ≡ ts)
      × (duration_of (timespec_of d) ≡ d)
      × IsNormal (timespec_of d)
unfolding timespec_of
timespec_of-duration_of ts d normal small = (
  ap timespec_of (duration_of-IsNormal ts normal)
      ∙ ap
          (λ a. record { tv_sec = a; tv_nsec = (ts.tv_sec * 1000000000 + ts.tv_nsec) % 1000000000 })
          (seconds ts.tv_sec ts.tv_nsec normal.0 normal.1)
      ∙ ap (λ b. record { tv_sec = ts.tv_sec; tv_nsec = b })
          (nanoseconds ts.tv_sec ts.tv_nsec normal.1),
  duration_of-IsNormal (timespec_of d) (timespec_of-IsNormal d small) ∙ back d small,
  timespec_of-IsNormal d small,
)
