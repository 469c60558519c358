-- ===== src/Sched.antt =====
-- server/core/port/sched.c
pub mod Invariant
pub mod Switch
pub mod Objects
pub mod Leaves
use l4ertl.Base.{
  Bool, Option, some, none, ◌%◌, ◌-◌, bit_or, null, ◌||◌, bit_and, ◌^◌, ◌==◌, ◌+◌, ℕ, Ptr,
  if◌then◌else◌,
}
use Prim.Native.Nat.{bit_or, bit_and, ℕ}
use l4ertl.Kernel.{
  Thread, Kernel, Outcome, done, away, stuck, and_then, set_thread, set_current, current, success,
}
use l4ertl.Flags.{
  set_thread_state, get_thread_state, ready_thread, suspended_thread, finished_thread,
}
use l4ertl.Ready.{lookfor_ss, Ready, insert_ss, insert_ss_tail, remove_ss, get_head_ss}

abbrev pub state_of : Kernel → Ptr → ℕ
state_of k t = get_thread_state (k.threads t).thread_flags

-- SET_THREAD_STATE (t, state)
abbrev pub set_state : Ptr → ℕ → Kernel → Kernel
set_state t state k =
    set_thread t
      (record (k.threads t) { thread_flags = set_thread_state (k.threads t).thread_flags state }) k

abbrev pub insert_active : Ptr → Kernel → Kernel
insert_active t k = record k {
  active_threads = insert_ss t (k.threads t).sched_priority k.active_threads;
}

abbrev pub remove_active : Ptr → Kernel → Kernel
remove_active t k = record k { active_threads = remove_ss t k.active_threads }

unfoldable pub change_thread_prio : Ptr → ℕ → Kernel → Kernel
change_thread_prio t prio k =
    let prev_state = state_of k t in
    let k1 = remove_active t k in
    let k2 = set_thread t (record (k1.threads t) { sched_priority = prio }) k1 in
    if prev_state == ready_thread then insert_active t k2 else k2

unfoldable pub suspend_thread : Ptr → Kernel → Kernel
suspend_thread t k =
    let k1 = remove_active t k in
    if state_of k1 t == finished_thread then k1 else set_state t suspended_thread k1

unfoldable pub activate_thread : Ptr → Kernel → Kernel
activate_thread t k =
    if state_of k t == finished_thread || state_of k t == ready_thread
    then k
    else set_state t ready_thread (insert_active t k)

-- `free_kstack` belongs to the stacks of the processor, which are not modelled.
unfoldable pub finish_thread : Ptr → Kernel → Kernel
finish_thread t k = set_state t finished_thread (remove_active t k)

abbrev pub outside_irqs : ℕ
outside_irqs = 0x7fff_ffff

abbrev pub sched_pending : ℕ
sched_pending = 0x8000_0000

-- `monotonic_clock->gettime_nsec ()`
abbrev pub gettime : Kernel → ℕ
gettime k = k.clock k.readings

abbrev pub count_reading : Kernel → Kernel
count_reading k = record k { readings = k.readings + 1 }

-- The head of the ready structure, or the idle thread.
unfoldable pub new_thread : Kernel → Ptr
new_thread k =
    let head = (get_head_ss k.active_threads).thread in if head == null then k.idle_thread else head

-- `current_thread -> used_time += now - current_thread -> starting_time`, over 64 bits.
unfoldable pub charge_time : Kernel → Kernel
charge_time k =
    let t = current k in
    count_reading (
      set_current
        (record t { used_time = (t.used_time + gettime k + 2 ^ 64 - t.starting_time) % 2 ^ 64 }) k)

-- What runs when the caller is switched back in.
unfoldable pub switched_in : Kernel → Kernel
switched_in k =
    let k1 = count_reading (set_current (record (current k) { starting_time = gettime k }) k) in
    record k1 { irq_nesting_counter = 0 }

-- `context_switch_to` makes the new thread the current one and saves and loads the registers, which
-- are not modelled.
unfoldable pub scheduling : Kernel → Outcome (Unit {0})
unfolding new_thread charge_time switched_in
scheduling k =
    if bit_and k.irq_nesting_counter outside_irqs == 0
    then if new_thread k == k.current_thread
      then done tt (record k { irq_nesting_counter = 0 })
      else away (record (charge_time k) { current_thread = new_thread k })
          (λ k'. done tt (switched_in k'))
    else done tt (record k { irq_nesting_counter = bit_or k.irq_nesting_counter sched_pending })

-- The walk of `insert_ss_tail` takes fuel.
unfoldable pub pthread_yield_sys : ℕ → Kernel → Outcome ℕ
pthread_yield_sys fuel k =
    let t = k.current_thread in
    let k1 = remove_active t k in
    elim (insert_ss_tail fuel t (k1.threads t).sched_priority k1.active_threads) [
      | none ↦ stuck
      | some active ↦
          and_then (scheduling (record k1 { active_threads = active })) (λ _ k2. done success k2)
    ]

unfoldable pub lookfor_thread : ℕ → Ptr → Kernel → Option Bool
unfolding lookfor_ss
lookfor_thread fuel t k = lookfor_ss fuel t k.active_threads
