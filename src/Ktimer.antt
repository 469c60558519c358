-- ===== src/Ktimer.antt =====
-- The timers of the kernel, in server/core/port/time.c. A time is an unsigned number of 64 bits. The
-- loops of the heap take as much fuel as it has elements and two rounds more, so that it does not run
-- out; that of `update_hwtimer` has fuel of its own. The two differences that `update_hwtimer`
-- computes before its loop and never uses are left out.
pub mod Expiry
use l4ertl.Flags.{finished_thread}
use l4ertl.Bitmap.{complement}
use l4ertl.Signal.{pthread_kill_sys}
use l4ertl.Base.{
  bit_or, not, ◌||◌, ◌-◌, zero, ◌&&◌, null, int_ltb, ◌%◌, ◌^◌, ◌/◌, word, ltb, leb, some, update,
  ◌==◌, bit_and, none, ◌+◌, if◌then◌else◌, Bool, Ptr, Option, ℕ,
}
use l4ertl.Sched.{
  finish_thread, state_of, count_reading, gettime, suspend_thread, activate_thread, scheduling,
}
use l4ertl.Kernel.{
  no_clock, no_action, read_monotonic_timer, action_kill, failure, read_thread_cputime_timer,
  success, read_realtime_timer, done, action_wakeup, current, stuck, and_then, Outcome, KTimer,
  Action, Kernel, ReadClock, HwTimer,
}
use l4ertl.TimerHeap.{heap_min, heap_remove_element, heap_remove_min, heap_insert}
use Prim.Native.Nat.{bit_or, suc, bit_and, ℕ}

abbrev pub max_timers : ℕ
max_timers = 32

abbrev pub timer_in_use : ℕ
timer_in_use = 0x100

abbrev pub timer_armed : ℕ
timer_armed = 0x200

abbrev pub timer_abstime : ℕ
timer_abstime = 0x1

abbrev pub heap_max_nelem : ℕ
heap_max_nelem = max_timers + 1

abbrev pub need_reesched : ℕ
need_reesched = 1

-- `&timer_array [timerid]`, also of an index before the array.
abbrev pub timer_at : ℕ → Ptr
timer_at timerid = (timerid + 1) % word

-- `timer -> timer_value` of every timer.
abbrev pub value_of : Kernel → Ptr → ℕ
value_of k p = (k.timers p).timer_value

abbrev pub set_ktimer : Ptr → KTimer → Kernel → Kernel
set_ktimer p v k = record k { timers = update k.timers p v }

-- What `read_clock (t)` returns; the reading is counted apart.
unfoldable pub clock_value : ReadClock → Ptr → Kernel → ℕ
clock_value read_monotonic_timer t k = gettime k
clock_value read_realtime_timer t k = k.realtime k.readings
clock_value read_thread_cputime_timer t k =
    ((k.threads t).used_time + gettime k + 2 ^ 64 - (k.threads t).starting_time) % 2 ^ 64
clock_value no_clock t k = 0

-- `ktimer -> read_clock (ktimer -> owner)`
abbrev pub now_of : Ptr → Kernel → ℕ
now_of p k = clock_value (k.timers p).read_clock (k.timers p).owner k

-- Calling a NULL action has no outcome.
unfoldable pub run_action : Ptr → Kernel → Outcome ℕ
unfolding activate_thread pthread_kill_sys
run_action p k = elim (k.timers p).action [
  | action_wakeup ↦ done need_reesched (activate_thread (k.timers p).owner k)
  | action_kill ↦
      and_then (pthread_kill_sys (k.timers p).owner (k.timers p).signo k)
        (λ _ k1. done need_reesched k1)
  | no_action ↦ stuck
]

-- The loop over the `left` indices from `at` for a timer that is not in use; where it stops.
unfoldable pub free_timer : ℕ → ℕ → Kernel → ℕ
free_timer zero at k = at
free_timer (suc left) at k =
    let rest = free_timer left (at + 1) k in
    if bit_and (k.timers (timer_at at)).flags timer_in_use == 0 then at else rest

-- The clock of a clockid_t: CLOCK_REALTIME is 0, CLOCK_THREAD_CPUTIME_ID is 2.
abbrev pub clock_of : ℕ → ReadClock
clock_of clockid =
    if clockid == 0
    then read_realtime_timer
    else if clockid == 2
    then read_thread_cputime_timer
    else read_monotonic_timer

-- What is returned is -1 if no timer is free.
unfoldable pub alloc_ktimer : ℕ → Ptr → Action → Kernel → Outcome ℕ
unfolding free_timer
alloc_ktimer clockid thread act k =
    let timerid = free_timer max_timers 0 k in
    if leb max_timers timerid
    then done failure k
    else done timerid (
        set_ktimer (timer_at timerid)
          (record {
            owner = thread;
            timer_value = 0;
            timer_interval = 0;
            flags = timer_in_use;
            read_clock = clock_of clockid;
            action = act;
            signo = 0;
          })
          k)

-- HEAP_remove_element (&timer_heap, p)
abbrev pub remove_from_heap : Ptr → Kernel → Option Kernel
unfolding heap_remove_element
remove_from_heap p k =
    elim (heap_remove_element (k.timer_heap.nelem + 2) (value_of k) p k.timer_heap) [
      | none ↦ none
      | some removed ↦ some (record k { timer_heap = removed.1 })
    ]

-- HEAP_insert (&timer_heap, p)
abbrev pub insert_in_heap : Ptr → Kernel → Option Kernel
unfolding heap_insert
insert_in_heap p k =
    elim (heap_insert (k.timer_heap.nelem + 2) heap_max_nelem (value_of k) p k.timer_heap) [
      | none ↦ none
      | some inserted ↦ some (record k { timer_heap = inserted.1 })
    ]

unfoldable pub free_ktimer : Ptr → Kernel → Option Kernel
unfolding remove_from_heap
free_ktimer p k = elim (remove_from_heap p k) [
  | none ↦ none
  | some k1 ↦ some (set_ktimer p (record (k1.timers p) { flags = 0 }) k1)
]

-- The expiration that `arm_timer` sets, and the kernel after the reading of the clock, if there is one.
unfoldable pub set_expiration : Ptr → ℕ → Kernel → Kernel
unfolding clock_value
set_expiration p value k =
    if bit_and (k.timers p).flags timer_abstime == timer_abstime
    then set_ktimer p (record (k.timers p) { timer_value = value }) k
    else count_reading
        (set_ktimer p (record (k.timers p) { timer_value = (value + now_of p k) % 2 ^ 64 }) k)

unfoldable pub arm_timer : Ptr → ℕ → ℕ → Kernel → Option (ℕ × Kernel)
unfolding set_expiration insert_in_heap
arm_timer p value interval k =
    if p == null || bit_and (k.timers p).flags timer_in_use == 0
    then some (failure, k)
    else (let k1 = set_expiration p value k in
        let timer = k1.timers p in
        elim (insert_in_heap p (
          set_ktimer p
            (record timer { flags = bit_or timer.flags timer_armed; timer_interval = interval })
            k1)) [ none ↦ none | some k2 ↦ some (success, k2) ])

-- `flags &= ~TIMER_ARMED`
abbrev pub clear_armed : Ptr → Kernel → Kernel
clear_armed p k =
    set_ktimer p
      (record (k.timers p) { flags = bit_and (k.timers p).flags (complement timer_armed) }) k

unfoldable pub disarm_timer : ℕ → Kernel → Option Kernel
unfolding remove_from_heap
disarm_timer timerid k = elim (remove_from_heap (timer_at timerid) k) [
  | none ↦ none
  | some k1 ↦ some (clear_armed (timer_at timerid) k1)
]

-- `(int) (a - b)` of two unsigned long: the word, to be read with a sign.
abbrev pub int_difference : ℕ → ℕ → ℕ
int_difference a b = (a + word - b) % word

-- The test of the loop: of the high and the low words.
unfoldable pub expired : ℕ → ℕ → Bool
expired timer_value ctime =
    let hi = int_difference (timer_value / word) (ctime / word) in
    let low = int_difference (timer_value % word) (ctime % word) in
    int_ltb 0 hi || (hi == 0 && not (int_ltb 0 low))

-- What follows the action and the removal: the timer starts again or is disarmed.
unfoldable pub restart : Ptr → ℕ → Kernel → Option Kernel
unfolding insert_in_heap
restart p ctime k =
    let timer = k.timers p in
    if ltb 0 timer.timer_interval && not (state_of k timer.owner == finished_thread)
    then insert_in_heap p
        (set_ktimer p (record timer { timer_value = (timer.timer_interval + ctime) % 2 ^ 64 }) k)
    else some (clear_armed p k)

-- HEAP_remove_min, and the restart.
unfoldable pub next_round : Ptr → ℕ → Kernel → Option Kernel
unfolding heap_remove_min restart
next_round p ctime k = elim (heap_remove_min (k.timer_heap.nelem + 2) (value_of k) k.timer_heap) [
  | none ↦ none
  | some removed ↦ restart p ctime (record k { timer_heap = removed.1 })
]

-- The interval between the bounds of the hardware timer.
abbrev pub clamp : HwTimer → ℕ → ℕ
clamp hw next_time =
    if ltb next_time hw.min_interval
    then hw.min_interval
    else if ltb hw.max_interval next_time
    then hw.max_interval
    else next_time

-- What follows the loop.
unfoldable pub set_hwtimer : Ptr → ℕ → Kernel → Kernel
set_hwtimer p ctime k = record k {
  hwtimer = record k.hwtimer {
    interval = clamp k.hwtimer ((value_of k p + 2 ^ 64 - ctime) % 2 ^ 64);
  };
}

-- The loop, from the point at which the first timer is looked up; `action` is what the last action
-- returned. The clock of the first timer is read once in each round.
unfoldable pub expire : ℕ → ℕ → Kernel → Outcome ℕ
unfolding heap_min clock_value run_action next_round expired set_hwtimer
expire zero action k = stuck
expire (suc fuel) action k =
    let p = heap_min k.timer_heap in
    let ctime = now_of p k in
    let k1 = count_reading k in
    let fire = and_then (run_action p k1) (λ action1 k2. elim (next_round p ctime k2) [
      | none ↦ stuck
      | some k3 ↦ expire fuel action1 k3
    ]) in
    if p == null
    then done action k
    else if expired (value_of k1 p) ctime
    then fire
    else done action (set_hwtimer p ctime k1)

unfoldable pub update_hwtimer : ℕ → Kernel → Outcome ℕ
unfolding expire
update_hwtimer fuel k = expire fuel 0 k

unfoldable pub clock_handler : ℕ → Kernel → Outcome ℕ
unfolding update_hwtimer scheduling
clock_handler fuel k = and_then (update_hwtimer fuel k) (λ action k1.
    if action == need_reesched
    then and_then (scheduling k1) (λ _ k2. done success k2)
    else done success k1)

-- A call that may run out of fuel as a call that may be stuck.
unfoldable pub lift : {A : Type 0} → Option (A × Kernel) → Outcome A
lift none = stuck
lift (some r) = done r.0 r.1

unfoldable pub sleep_for : ℕ → ℕ → Kernel → Outcome ℕ
unfolding arm_timer suspend_thread update_hwtimer scheduling lift clock_value
sleep_for fuel d k =
    let p = (current k).sleep_ktimer in
    and_then (lift (arm_timer p d 0 k)) (λ _ k1.
      and_then (update_hwtimer fuel (suspend_thread k1.current_thread k1)) (λ _ k2.
        and_then (scheduling k2) (λ _ k3.
          let ctime = now_of p k3 in
          done (if ltb ctime d then d - ctime else 0) (count_reading k3))))
