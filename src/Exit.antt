-- ===== src/Exit.antt =====
-- The end of a thread, in server/core/port/pthread.c. `exit_sys` ends the whole program by a call that
-- is not part of it, and is an argument. On the L4 processor the macro CALL_CANCEL_HANDLER is empty,
-- so the cleanup handlers are only taken off.
pub mod Leaves
use l4ertl.Base.{
  zero, int_ltb, ◌%◌, ◌-◌, null, word, ◌+◌, not, ◌&&◌, some, ◌==◌, if◌then◌else◌, none, Ptr, Option,
  ℕ,
}
use l4ertl.Ktimer.{free_ktimer}
use l4ertl.Flags.{get_thread_detach_state}
use l4ertl.Sched.{activate_thread, finish_thread, scheduling, suspend_thread}
use Prim.Native.Nat.{suc, ℕ}
use l4ertl.Kernel.{set_current, done, stuck, and_then, current, Kernel, Outcome}

-- The loop over the cleanup handlers, for as many as there can be.
unfoldable pub drop_handlers : ℕ → Kernel → Option Kernel
drop_handlers zero k = none
drop_handlers (suc fuel) k =
    let top = (current k).top_cr_table in
    let rest =
      drop_handlers fuel
        (set_current (record (current k) { top_cr_table = (top + word - 1) % word }) k) in
    if int_ltb 0 top then rest else some k

-- The thread that waits for this one wakes up.
unfoldable pub wake_joining : Kernel → Kernel
unfolding get_thread_detach_state activate_thread
wake_joining k =
    let t = current k in
    if get_thread_detach_state t.thread_flags == 0 && not (t.joining_thread == null)
    then activate_thread t.joining_thread k
    else k

-- What follows the loop over the cleanup handlers.
unfoldable pub leave_processor :
    (ℕ → Kernel → Outcome (Unit {0})) → Ptr → ℕ → Kernel → Outcome (Unit {0})
unfolding wake_joining scheduling
leave_processor exit_sys mainapp_thread value k =
    let k1 = wake_joining k in
    and_then (if mainapp_thread == k1.current_thread then exit_sys value k1 else done tt k1)
      (λ _ k2. scheduling k2)

-- `fuel` is for the loop.
unfoldable pub pthread_exit_sys :
    (ℕ → Kernel → Outcome (Unit {0})) → Ptr → ℕ → ℕ → Kernel → Outcome (Unit {0})
unfolding free_ktimer finish_thread drop_handlers leave_processor
pthread_exit_sys exit_sys mainapp_thread fuel value k =
    elim (free_ktimer (current k).sleep_ktimer k) [
      | none ↦ stuck
      | some k1 ↦
          let k2 = finish_thread k1.current_thread k1 in
          elim (drop_handlers fuel (set_current (record (current k2) { exit_value = value }) k2)) [
            | none ↦ stuck
            | some k3 ↦ leave_processor exit_sys mainapp_thread value k3
          ]
    ]

-- SLEEP_THREAD_handler
unfoldable pub sleep_thread_handler : ℕ → Kernel → Outcome (Unit {0})
unfolding suspend_thread scheduling
sleep_thread_handler signal k = scheduling (suspend_thread k.current_thread k)

-- CANCEL_THREAD_handler
unfoldable pub cancel_thread_handler :
    (ℕ → Kernel → Outcome (Unit {0})) → Ptr → ℕ → ℕ → Kernel → Outcome (Unit {0})
unfolding pthread_exit_sys
cancel_thread_handler exit_sys mainapp_thread fuel signal k =
    pthread_exit_sys exit_sys mainapp_thread fuel 0 k
