-- ===== src/Time.antt =====
-- The calls on clocks and timers of server/core/port/time.c. A pointer argument is what it points to,
-- `none` for NULL; an out-parameter is the last part of what is returned, `none` if nothing is stored.
-- A time_t and a long are words whose upper half are the negative values; sums of times are unsigned
-- numbers of 64 bits. The resolutions of the two clocks are arguments.
pub mod Specs
pub mod Create
use l4ertl.Bitmap.{complement}
use l4ertl.Sched.{count_reading}
use l4ertl.Kernel.{
  action_kill, eintr, set_errno, stuck, einval, eperm, failure, success, efault, fail, and_then,
  done, eagain, Outcome, Kernel, KTimer,
}
use l4ertl.Base.{
  ◌-◌, some, bit_or, ◌^◌, none, word, ◌||◌, ◌%◌, bit_and, ◌+◌, int_ltb, ltb, ◌==◌, ◌/◌, ◌*◌,
  if◌then◌else◌, not, Option, ℕ, Bool,
}
use l4ertl.Ktimer.{
  now_of, clock_of, timer_abstime, timer_in_use, timer_armed, max_timers, lift, set_ktimer,
  update_hwtimer, timer_at, free_ktimer, alloc_ktimer, disarm_timer, sleep_for, arm_timer,
  clock_value,
}
use Prim.Native.Nat.{bit_or, bit_and, ℕ}

-- struct timespec
pub record TimeSpec : Type 0 where
  pub tv_sec : ℕ
  pub tv_nsec : ℕ

-- struct itimerspec
pub record ITimerSpec : Type 0 where
  pub it_interval : TimeSpec
  pub it_value : TimeSpec

abbrev pub nsecs_per_sec : ℕ
nsecs_per_sec = 1000000000

-- A word with a sign as an unsigned number of 64 bits.
abbrev pub sign_extend : ℕ → ℕ
sign_extend x = if ltb x (2 ^ 31) then x else x + (2 ^ 64 - word)

-- `tv_sec * NSECS_PER_SEC + tv_nsec`
unfoldable pub duration_of : TimeSpec → ℕ
duration_of ts = (sign_extend ts.tv_sec * nsecs_per_sec + sign_extend ts.tv_nsec) % 2 ^ 64

-- `{tv_sec: d / NSECS_PER_SEC, tv_nsec: d % NSECS_PER_SEC}`
unfoldable pub timespec_of : ℕ → TimeSpec
timespec_of d = record { tv_sec = d / nsecs_per_sec % word; tv_nsec = d % nsecs_per_sec }

-- A failure that stores nothing.
abbrev pub refuse : {A : Type 0} → ℕ → Kernel → Outcome (ℕ × Option A)
refuse e k = done (failure, none) (set_errno e k)

unfoldable pub nanosleep_sys : ℕ → TimeSpec → Kernel → Outcome (ℕ × Option TimeSpec)
unfolding duration_of timespec_of sleep_for
nanosleep_sys fuel req k = and_then (sleep_for fuel (duration_of req) k) (λ d k1.
    if d == 0
    then done (success, none) k1
    else done (failure, some (timespec_of d)) (set_errno eintr k1))

unfoldable pub usleep_sys : ℕ → ℕ → Kernel → Outcome ℕ
unfolding sleep_for
usleep_sys fuel usec k =
    and_then (sleep_for fuel (usec * 1000 % word) k)
      (λ d k1. if d == 0 then done success k1 else fail eintr k1)

unfoldable pub clock_settime_sys : ℕ → TimeSpec → Kernel → Outcome ℕ
clock_settime_sys clock_id tp k = fail eperm k

-- `wanted` tells whether `tp` is not NULL.
unfoldable pub clock_gettime_sys : ℕ → Bool → Kernel → Outcome (ℕ × Option TimeSpec)
unfolding clock_value timespec_of
clock_gettime_sys clock_id wanted k =
    if not wanted
    then refuse efault k
    else if clock_id == 0 || clock_id == 1 || clock_id == 2
    then done (success, some (timespec_of (clock_value (clock_of clock_id) k.current_thread k)))
        (count_reading k)
    else refuse einval k

unfoldable pub clock_getres_sys : ℕ → ℕ → ℕ → Kernel → Outcome (ℕ × Option TimeSpec)
unfolding timespec_of
clock_getres_sys realtime_res monotonic_res clock_id k =
    if clock_id == 0
    then done (success, some (timespec_of realtime_res)) k
    else if clock_id == 1 || clock_id == 2
    then done (success, some (timespec_of monotonic_res)) k
    else refuse einval k

unfoldable pub time_sys : Kernel → Outcome ℕ
time_sys k = done (k.realtime k.readings / nsecs_per_sec % word) (count_reading k)

-- The seconds and the microseconds.
unfoldable pub gettimeofday_sys : Bool → Kernel → Outcome (ℕ × Option TimeSpec)
gettimeofday_sys wanted k =
    let d = k.realtime k.readings / 1000 in
    if not wanted
    then refuse efault (count_reading k)
    else done (success, some (record { tv_sec = d / 1000000 % word; tv_nsec = d % 1000000 }))
        (count_reading k)

-- SIGALARM
abbrev pub sigalarm : ℕ
sigalarm = 8

-- `evp` is the signal of the event; what is stored in `*timerid` is the last part of the result.
unfoldable pub timer_create_sys : ℕ → Option ℕ → Kernel → Outcome (ℕ × Option ℕ)
unfolding alloc_ktimer
timer_create_sys clockid evp k =
    if not (clockid == 0 || clockid == 1 || clockid == 2)
    then refuse einval k
    else and_then (alloc_ktimer clockid k.current_thread action_kill k) (λ timerid k1.
      if not (int_ltb timerid max_timers)
      then done (failure, some timerid) (set_errno eagain k1)
      else done (success, some timerid)
          (set_ktimer (timer_at timerid)
            (record (k1.timers (timer_at timerid)) {
              signo = elim evp [ none ↦ sigalarm | some signo ↦ signo ];
            })
            k1))

-- `timerid >= MAX_TIMERS || !(timer_array [timerid].flags & TIMER_IN_USE)`
abbrev pub no_timer : ℕ → Kernel → Bool
no_timer timerid k =
    not (int_ltb timerid max_timers)
    || bit_and (k.timers (timer_at timerid)).flags timer_in_use == 0

unfoldable pub timer_delete_sys : ℕ → Kernel → Outcome ℕ
unfolding free_ktimer
timer_delete_sys timerid k =
    if no_timer timerid k
    then fail eagain k
    else elim (free_ktimer (timer_at timerid) k) [ none ↦ stuck | some k1 ↦ done success k1 ]

-- What is stored in `*ovalue`, if the timer is armed.
unfoldable pub armed_spec : KTimer → Option ITimerSpec
unfolding timespec_of
armed_spec timer =
    if bit_and timer.flags timer_armed == 0
    then none
    else some (record {
      it_interval = timespec_of timer.timer_interval;
      it_value = timespec_of timer.timer_value;
    })

-- The timer disarmed, if it was armed.
unfoldable pub stop_timer : ℕ → Kernel → Option Kernel
unfolding disarm_timer
stop_timer timerid k =
    if bit_and (k.timers (timer_at timerid)).flags timer_armed == 0
    then some k
    else disarm_timer timerid k

-- `flags &= ~TIMER_ABSTIME; flags |= (flags & TIMER_ABSTIME)`
abbrev pub set_abstime : ℕ → ℕ → Kernel → Kernel
set_abstime timerid flags k =
    let timer = k.timers (timer_at timerid) in
    set_ktimer (timer_at timerid)
      (record timer {
        flags =
            bit_or (bit_and timer.flags (complement timer_abstime)) (bit_and flags timer_abstime);
      })
      k

-- The timer started, if a time is given.
unfoldable pub start_timer : ℕ → ℕ → Option ITimerSpec → Kernel → Outcome ℕ
unfolding arm_timer update_hwtimer duration_of lift
start_timer fuel timerid none k = done success k
start_timer fuel timerid (some value) k =
    if bit_or value.it_value.tv_sec value.it_value.tv_nsec == 0
    then done success k
    else and_then
        (lift (
          arm_timer (timer_at timerid) (duration_of value.it_value) (duration_of value.it_interval)
            k))
        (λ _ k1. and_then (update_hwtimer fuel k1) (λ _ k2. done success k2))

unfoldable pub timer_settime_sys :
    ℕ → ℕ → ℕ → Option ITimerSpec → Kernel → Outcome (ℕ × Option ITimerSpec)
unfolding armed_spec stop_timer start_timer
timer_settime_sys fuel timerid flags value k =
    if no_timer timerid k then refuse eagain k else elim (stop_timer timerid k) [
      | none ↦ stuck
      | some k1 ↦
          and_then (start_timer fuel timerid value (set_abstime timerid flags k1))
            (λ r k2. done (r, armed_spec (k.timers (timer_at timerid))) k2)
    ]

-- A struct itimerspec of zeros.
abbrev pub zero_spec : ITimerSpec
zero_spec = record {
  it_interval = record { tv_sec = 0; tv_nsec = 0 };
  it_value = record { tv_sec = 0; tv_nsec = 0 };
}

-- `wanted` tells whether `value` is not NULL.
unfoldable pub timer_gettime_sys : ℕ → Bool → Kernel → Outcome (ℕ × Option ITimerSpec)
unfolding clock_value timespec_of
timer_gettime_sys timerid wanted k =
    let p = timer_at timerid in
    let timer = k.timers p in
    if no_timer timerid k
    then refuse eagain k
    else if not wanted
    then done (success, none) k
    else if bit_and timer.flags timer_armed == timer_armed
    then done
        (
          success,
          some (record {
            it_interval = timespec_of timer.timer_interval;
            it_value = timespec_of ((timer.timer_value + 2 ^ 64 - now_of p k) % 2 ^ 64);
          }),
        )
        (count_reading k)
    else done (success, some zero_spec) k

unfoldable pub timer_getoverrun_sys : ℕ → Kernel → Outcome ℕ
timer_getoverrun_sys timerid k = if no_timer timerid k then fail eagain k else done success k
