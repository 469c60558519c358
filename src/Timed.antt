-- ===== src/Timed.antt =====
-- The waits with a bound on the time: `sem_timedwait_sys` of server/core/port/semaphore.c and
-- `pthread_cond_timedwait_sys` of server/core/port/pthread.c. `fuel` is for the loop over the timers,
-- `wakes` for the unlocking of the mutex and `rounds` for its locking. The variable time_error of the
-- first call is never set, and what follows its test is left out.
use l4ertl.Sched.{gettime, count_reading}
use l4ertl.Semaphore.{take_one, set_sem, wait_on_sem}
use l4ertl.Cond.{wait_on_cond, set_cond}
use l4ertl.ThreadList.{remove_pthread_list}
use l4ertl.Mutex.{pthread_mutex_lock_sys, pthread_mutex_unlock_sys}
use l4ertl.Time.{nsecs_per_sec, TimeSpec, duration_of}
use l4ertl.Base.{
  none, not, ◌||◌, ◌&&◌, null, ◌%◌, ◌==◌, ◌-◌, ltb, some, ◌^◌, int_ltb, ◌+◌, if◌then◌else◌, Option,
  ℕ, Ptr,
}
use l4ertl.Ktimer.{sleep_for}
use Prim.Native.Nat.{ℕ}
use l4ertl.Kernel.{eperm, success, done, einval, and_then, fail, Kernel, Outcome}

-- etimedout of include/ertl_core/errno.h
abbrev pub etimedout : ℕ
etimedout = 110

-- `abstime - realtime_clock->gettime_nsec ()`; the reading is counted apart.
unfoldable pub time_left : TimeSpec → Kernel → ℕ
unfolding duration_of
time_left abstime k = (duration_of abstime + 2 ^ 64 - k.realtime k.readings) % 2 ^ 64

-- `if (sem -> value > 0) sem -> value = sem -> value - 1`
unfoldable pub take_if_positive : Ptr → Kernel → Kernel
take_if_positive s k = if int_ltb 0 (k.sems s).value then take_one s k else k

-- remove_pthread_list (&sem -> sem_list, &t -> sem_list)
abbrev pub leave_sem : Ptr → Ptr → Kernel → Kernel
leave_sem s t k =
    let listed = remove_pthread_list (k.sems s).sem_list t k.sem_links in
    set_sem s (record (k.sems s) { sem_list = listed.head }) (record k { sem_links = listed.links })

-- What follows the checks in `sem_timedwait_sys`.
unfoldable pub sleep_on_sem : ℕ → Ptr → TimeSpec → Kernel → Outcome ℕ
unfolding time_left take_if_positive sleep_for
sleep_on_sem fuel s abstime k =
    let d = time_left abstime k in
    and_then (sleep_for fuel d (wait_on_sem s k.current_thread (count_reading k)))
      (λ r k1. done success (take_if_positive s (leave_sem s k1.current_thread k1)))

-- `abstime` is what the argument points to, `none` for NULL.
unfoldable pub sem_timedwait_sys : ℕ → Ptr → Option TimeSpec → Kernel → Outcome ℕ
unfolding take_if_positive sleep_on_sem
sem_timedwait_sys fuel s none k = fail einval k
sem_timedwait_sys fuel s (some abstime) k =
    let k1 = take_if_positive s k in
    if s == null
    then fail einval k
    else if int_ltb 0 (k.sems s).value && int_ltb 0 (k1.sems s).value
    then done success k1
    else if int_ltb abstime.tv_nsec 0 || not (int_ltb abstime.tv_nsec nsecs_per_sec)
    then fail einval k1
    else sleep_on_sem fuel s abstime k1

-- remove_pthread_list (&cond -> cond_list, &t -> cond_list)
abbrev pub leave_cond : Ptr → Ptr → Kernel → Kernel
leave_cond c t k =
    let listed = remove_pthread_list (k.conds c) t k.cond_links in
    set_cond c listed.head (record k { cond_links = listed.links })

-- What follows the unlocking in `pthread_cond_timedwait_sys`, with the time `d`.
unfoldable pub timed_sleep_on_cond : ℕ → ℕ → ℕ → Ptr → Ptr → Kernel → Outcome ℕ
unfolding sleep_for pthread_mutex_lock_sys
timed_sleep_on_cond fuel rounds d c m k =
    and_then (sleep_for fuel d (wait_on_cond c k.current_thread k)) (λ r k1.
      and_then (pthread_mutex_lock_sys rounds m (leave_cond c k1.current_thread k1)) (λ _ k2.
        if ltb r (gettime k2)
        then fail etimedout (count_reading k2)
        else done success (count_reading k2)))

unfoldable pub pthread_cond_timedwait_sys :
    ℕ → ℕ → ℕ → Ptr → Ptr → Option TimeSpec → Kernel → Outcome ℕ
unfolding time_left timed_sleep_on_cond pthread_mutex_unlock_sys
pthread_cond_timedwait_sys fuel wakes rounds c m none k = fail einval k
pthread_cond_timedwait_sys fuel wakes rounds c m (some abstime) k =
    let d = time_left abstime k in
    let k1 = count_reading k in
    if c == null || m == null
    then fail einval k
    else if not ((k.mutexes m).owner == k.current_thread)
    then fail eperm k1
    else and_then (pthread_mutex_unlock_sys wakes m k1)
        (λ _ k2. timed_sleep_on_cond fuel rounds d c m k2)
