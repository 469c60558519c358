-- ===== src/Exit/Leaves.antt =====
-- A thread that ends leaves the processor for good.
use l4ertl.Sched.Objects.{activate_thread-SameObjects}
use l4ertl.Flags.Laws.{set_thread_fields, View}
use l4ertl.Flags.State.{get-set_thread_state}
use l4ertl.Base.{
  subst, ℕ, zero, suc, Ptr, null, ◌≡◌, ◌≢◌, ◌<◌, ◌+◌, ◌-◌, ◌%◌, word, ◌^◌, false, true, some,
  update, refl, arith, bit_and, ◌==◌, ◌∙◌, ap, sym, int_ltb, ◌||◌,
}
use l4ertl.Exit.{pthread_exit_sys, drop_handlers, wake_joining, leave_processor}
use l4ertl.Flags.{
  get_thread_state, get_thread_detach_state, finished_thread, ready_thread, suspended_thread,
}
use l4ertl.Kernel.{
  TimerHeap, KTimer, Kernel, Thread, Outcome, away, done, and_then, current, set_current,
}
use l4ertl.Ktimer.{value_of, free_ktimer}
use l4ertl.Ready.Queues.{Queues, drop, Absent, push_front}
use l4ertl.Sched.{charge_time, finish_thread, activate_thread, switched_in, state_of, outside_irqs}
use l4ertl.Sched.Invariant.{
  alive-ne-null, column_of, row_of, IsKernel, IsAlive, activate_thread-IsKernel,
  finish_thread-IsKernel, drop-Absent,
}
use l4ertl.Sched.Leaves.{left, scheduling-HasLeft}
use l4ertl.Sched.Switch.{IsNext, IsKernel-same}
use l4ertl.TimerHeap.Laws.{heap_remove_element-ends}

-- Nothing that the scheduler reads has changed, and no thread has another to wake.
abbrev SameLives : Kernel → Kernel → Type 0
SameLives k k' =
    (k'.active_threads ≡ k.active_threads)
    × (k'.current_thread ≡ k.current_thread)
    × (k'.idle_thread ≡ k.idle_thread)
    × (k'.irq_nesting_counter ≡ k.irq_nesting_counter)
    × ((t : Ptr)
        → ((k'.threads t).thread_flags ≡ (k.threads t).thread_flags)
          × ((k'.threads t).sched_priority ≡ (k.threads t).sched_priority)
          × ((k'.threads t).magic_number ≡ (k.threads t).magic_number)
          × ((k'.threads t).joining_thread ≡ (k.threads t).joining_thread))

SameLives-trans : (k k1 k2 : Kernel) → SameLives k k1 → SameLives k1 k2 → SameLives k k2
SameLives-trans k k1 k2 a b = (
  b.0 ∙ a.0,
  b.1 ∙ a.1,
  b.2 ∙ a.2,
  b.3 ∙ a.3,
  λ t. ((b.4 t).0 ∙ (a.4 t).0, (b.4 t).1 ∙ (a.4 t).1, (b.4 t).2 ∙ (a.4 t).2, (b.4 t).3 ∙ (a.4 t).3),
)

free_ktimer-ends :
    (p : Ptr) (k : Kernel)
    → (timers : Ptr → KTimer) × ((heap : TimerHeap) × (free_ktimer p k
          ≡ some (record k { timers = timers; timer_heap = heap })))
unfolding free_ktimer
free_ktimer-ends p k =
    let (r, ends) =
      heap_remove_element-ends (k.timer_heap.nelem + 2) (value_of k) p k.timer_heap (omega arith) in
    (update k.timers p (record (k.timers p) { flags = 0 }), (r.1, rw (ends, free_ktimer) refl))

-- The loop over the cleanup handlers ends with the fuel for them and one more.
drop_handlers-SameLives :
    (fuel top : ℕ) (k : Kernel)
    → (current k).top_cr_table ≡ top
    → top < fuel
    → top < 2 ^ 31
    → (k1 : Kernel) × (drop_handlers fuel k ≡ some k1) × SameLives k k1
unfolding drop_handlers
drop_handlers-SameLives zero top k e enough small = absurd (omega (arith, enough))
drop_handlers-SameLives (suc fuel) zero k e enough small =
    (k, rw e refl, (refl, refl, refl, refl, λ t. (refl, refl, refl, refl)))
drop_handlers-SameLives (suc fuel) (suc top) k e enough small =
    let k1 =
      set_current
        (record (current k) { top_cr_table = ((current k).top_cr_table + word - 1) % word }) k in
    let (k2, ends, same) =
      drop_handlers-SameLives fuel top k1 (ground (arith, e, small)) (omega (arith, enough))
        (omega (arith, small)) in
    let test : int_ltb 0 (current k).top_cr_table ≡ true = ground (arith, e, small) in
    (
      k2,
      rw (test, drop_handlers) ends,
      SameLives-trans k k1 k2 (refl, refl, refl, refl, λ t. ground arith) same,
    )

-- What holds of the kernel as the ending thread `t`, for which `j` waits, leaves the processor.
pub record HasEnded (t j : Ptr) (k' : Kernel) : Type 0 where
  pub queues : Queues
  pub held : IsKernel k' queues
  pub next : IsNext queues k'.idle_thread k'.current_thread
  pub absent : Absent t queues
  pub finished : state_of k' t ≡ finished_thread
  pub woken : state_of k' j ≡ ready_thread

finish_thread_self :
    (t : Ptr) (k : Kernel)
    → (k.threads t).thread_flags < word
    → (state_of (finish_thread t k) t ≡ finished_thread)
      × (get_thread_detach_state ((finish_thread t k).threads t).thread_flags
          ≡ get_thread_detach_state (k.threads t).thread_flags)
      × (((finish_thread t k).threads t).joining_thread ≡ (k.threads t).joining_thread)
unfolding finish_thread
finish_thread_self t k small = (
  ground (arith, get-set_thread_state (k.threads t).thread_flags finished_thread),
  ground (
    arith,
    ap (λ (v : View). v.detach)
        (set_thread_fields (k.threads t).thread_flags finished_thread small).0,
  ),
  ground arith,
)

finish_thread_other : (t x : Ptr) (k : Kernel) → t ≢ x → (finish_thread t k).threads x ≡ k.threads x
unfolding finish_thread
finish_thread_other t x k ne = ground arith

activate_thread_woken :
    (t x : Ptr) (k : Kernel)
    → state_of k t ≡ suspended_thread
    → (state_of (activate_thread t k) t ≡ ready_thread)
      × ((activate_thread t k).idle_thread ≡ k.idle_thread)
      × (t ≢ x → (activate_thread t k).threads x ≡ k.threads x)
unfolding activate_thread
activate_thread_woken t x k suspended = (
  ground (arith, suspended, get-set_thread_state (k.threads t).thread_flags ready_thread),
  ground arith,
  λ ne. ground arith,
)

left_state : (k : Kernel) (t : Ptr) → state_of (left k) t ≡ state_of k t
unfolding charge_time
left_state k t =
    let same : ((left k).threads t).thread_flags ≡ (k.threads t).thread_flags = ground arith in
    ap get_thread_state same

-- What follows the loop over the cleanup handlers.
leave_processor-HasEnded :
    (k : Kernel) (q : Queues) (j main : Ptr) (value : ℕ)
    (exit_sys : ℕ → Kernel → Outcome (Unit {0}))
    → IsKernel k q
    → Absent k.current_thread q
    → bit_and k.irq_nesting_counter outside_irqs ≡ 0
    → k.current_thread ≢ k.idle_thread
    → main ≢ k.current_thread
    → state_of k k.current_thread ≡ finished_thread
    → get_thread_detach_state (current k).thread_flags ≡ 0
    → (current k).joining_thread ≡ j
    → j ≢ k.current_thread
    → IsAlive k j
    → j ≢ null
    → state_of k j ≡ suspended_thread
    → (k' : Kernel) × (leave_processor exit_sys main value k
        ≡ away k' (λ k1. done tt (switched_in k1)))
      × HasEnded k.current_thread j k'
unfolding leave_processor wake_joining and_then charge_time
leave_processor-HasEnded k q j main value exit_sys v out e busy not_main ended attached joined other
      alive real suspended =
    let t = k.current_thread in
    let kw = activate_thread j k in
    let same = activate_thread-SameObjects j k in
    let (ready, idle, kept) = activate_thread_woken j t k suspended in
    let q1 = push_front j (row_of k j) (column_of k j) q in
    let idle_state : (state_of k j == finished_thread || state_of k j == ready_thread) ≡ false =
      ground (arith, suspended) in
    let v1 : IsKernel kw q1 =
      subst (IsKernel kw) (rw idle_state refl) (activate_thread-IsKernel k q j v alive) in
    let out1 : Absent kw.current_thread q1 = rw same.7 (λ a b. ground (arith, out a b, other)) in
    let (leaves, held, next) =
      scheduling-HasLeft kw q1 v1 out1 (rw same.6 e) (rw (same.7, idle) busy) in
    let test1 : (get_thread_detach_state (current k).thread_flags == 0) ≡ true =
      ground (arith, attached) in
    let test2 : ((current k).joining_thread == null) ≡ false = ground (arith, joined, real) in
    let test3 : (main == kw.current_thread) ≡ false = ground (arith, not_main, same.7) in
    (
      left kw,
      rw (test1, test2, joined, test3, leaves, leave_processor) refl,
      record {
        queues = q1;
        held = held;
        next = next;
        absent = λ a b. ground (arith, out a b, other);
        finished =
            left_state kw t
            ∙ ap (λ (x : Thread). get_thread_state x.thread_flags) (kept other)
            ∙ ended;
        woken = left_state kw j ∙ ready;
      },
    )

-- The same for the current thread by its name.
leave_at-HasEnded :
    (k : Kernel) (q : Queues) (t j main : Ptr) (value : ℕ)
    (exit_sys : ℕ → Kernel → Outcome (Unit {0}))
    → k.current_thread ≡ t
    → IsKernel k q
    → Absent t q
    → bit_and k.irq_nesting_counter outside_irqs ≡ 0
    → t ≢ k.idle_thread
    → main ≢ t
    → state_of k t ≡ finished_thread
    → get_thread_detach_state (k.threads t).thread_flags ≡ 0
    → (k.threads t).joining_thread ≡ j
    → j ≢ t
    → IsAlive k j
    → j ≢ null
    → state_of k j ≡ suspended_thread
    → (k' : Kernel) × (leave_processor exit_sys main value k
        ≡ away k' (λ k1. done tt (switched_in k1)))
      × HasEnded t j k'
leave_at-HasEnded k q t j main value exit_sys cur v out e busy not_main ended attached joined other
      alive real suspended =
    let (k', leaves, h) =
      leave_processor-HasEnded k q j main value exit_sys v (subst (λ a. Absent a q) (sym cur) out) e
        (λ s. busy (sym cur ∙ s)) (λ s. not_main (s ∙ cur)) (ap (state_of k) cur ∙ ended)
        (ap (λ a. get_thread_detach_state (k.threads a).thread_flags) cur ∙ attached)
        (ap (λ a. (k.threads a).joining_thread) cur ∙ joined) (λ s. other (s ∙ cur)) alive real
        suspended in
    (k', leaves, subst (λ a. HasEnded a j k') cur h)

-- The thread finished, with the value that it leaves.
abbrev ended_with : ℕ → Kernel → Kernel
ended_with value k1 =
    let k2 = finish_thread k1.current_thread k1 in
    set_current (record (current k2) { exit_value = value }) k2

-- The parts of the call, one after the other.
exit_steps :
    (k k1 k3 : Kernel) (fuel value : ℕ) (exit_sys : ℕ → Kernel → Outcome (Unit {0})) (main : Ptr)
    (r : Outcome (Unit {0}))
    → free_ktimer (current k).sleep_ktimer k ≡ some k1
    → drop_handlers fuel (ended_with value k1) ≡ some k3
    → leave_processor exit_sys main value k3 ≡ r
    → pthread_exit_sys exit_sys main fuel value k ≡ r
unfolding pthread_exit_sys
exit_steps k k1 k3 fuel value exit_sys main r freed dropped leaves =
    rw (freed, dropped, pthread_exit_sys) leaves

-- What follows the loop, in a kernel in which the threads live as after `finish_thread` in `k`.
after_loop :
    (k k3 : Kernel) (q : Queues) (j main : Ptr) (value : ℕ)
    (exit_sys : ℕ → Kernel → Outcome (Unit {0}))
    → IsKernel k q
    → bit_and k.irq_nesting_counter outside_irqs ≡ 0
    → k.current_thread ≢ k.idle_thread
    → main ≢ k.current_thread
    → (current k).thread_flags < word
    → get_thread_detach_state (current k).thread_flags ≡ 0
    → (current k).joining_thread ≡ j
    → j ≢ k.current_thread
    → IsAlive k j
    → state_of k j ≡ suspended_thread
    → SameLives (finish_thread k.current_thread k) k3
    → (k' : Kernel) × (leave_processor exit_sys main value k3
        ≡ away k' (λ k1. done tt (switched_in k1)))
      × HasEnded k.current_thread j k'
unfolding finish_thread
after_loop k k3 q j main value exit_sys v e busy not_main word_flags attached joined other alive
      suspended life =
    let t = k.current_thread in
    let k2 = finish_thread t k in
    let v2 : IsKernel k2 (drop t q) = finish_thread-IsKernel k q t v in
    let (ended, detach, joining) = finish_thread_self t k word_flags in
    let v3 : IsKernel k3 (drop t q) =
      IsKernel-same k2 k3 (drop t q) v2 life.0 (λ x. ((life.4 x).0, (life.4 x).1, (life.4 x).2)) in
    let unfinished = finish_thread_other t j k (λ s. other (sym s)) in
    leave_at-HasEnded k3 (drop t q) t j main value exit_sys life.1 v3 (drop-Absent k q v t)
      (ap (λ c. bit_and c outside_irqs) life.3 ∙ e) (λ s. busy (s ∙ life.2)) not_main
      (ap get_thread_state (life.4 t).0 ∙ ended)
      (ap get_thread_detach_state (life.4 t).0 ∙ detach ∙ attached)
      ((life.4 t).3 ∙ joining ∙ joined) other
      ((life.4 j).2 ∙ ap (λ (x : Thread). x.magic_number) unfinished ∙ alive)
      (alive-ne-null k q v j alive)
      (ap get_thread_state (life.4 j).0
        ∙ ap (λ (x : Thread). get_thread_state x.thread_flags) unfinished
        ∙ suspended)

-- Where the queues are held and no interrupt is being served, and the caller, which is neither the idle
-- thread nor that of the application, is not detached and a living suspended thread waits for its end:
-- with fuel for its cleanup handlers and one more, `pthread_exit_sys` leaves the processor for the thread
-- that is then to run, with the caller finished and in no queue, and the waiting thread ready.
pub pthread_exit_sys-HasEnded :
    (k : Kernel) (q : Queues) (j main : Ptr) (fuel value : ℕ)
    (exit_sys : ℕ → Kernel → Outcome (Unit {0}))
    → IsKernel k q
    → bit_and k.irq_nesting_counter outside_irqs ≡ 0
    → k.current_thread ≢ k.idle_thread
    → main ≢ k.current_thread
    → (current k).thread_flags < word
    → get_thread_detach_state (current k).thread_flags ≡ 0
    → (current k).joining_thread ≡ j
    → j ≢ k.current_thread
    → IsAlive k j
    → state_of k j ≡ suspended_thread
    → (current k).top_cr_table < fuel
    → (current k).top_cr_table < 2 ^ 31
    → (k' : Kernel) × (pthread_exit_sys exit_sys main fuel value k
        ≡ away k' (λ k1. done tt (switched_in k1)))
      × HasEnded k.current_thread j k'
unfolding finish_thread
pthread_exit_sys-HasEnded k q j main fuel value exit_sys v e busy not_main word_flags attached
      joined other alive suspended enough small =
    let t = k.current_thread in
    let (timers, (heap, freed)) = free_ktimer-ends (current k).sleep_ktimer k in
    let k1 = record k { timers = timers; timer_heap = heap } in
    let v1 : IsKernel k1 q = IsKernel-same k k1 q v refl (λ x. (refl, refl, refl)) in
    let (k3, dropped, same) =
      drop_handlers-SameLives fuel (current k).top_cr_table (ended_with value k1) (ground arith)
        enough small in
    let life =
      SameLives-trans (finish_thread t k1) (ended_with value k1) k3
        (refl, refl, refl, refl, λ x. ground arith) same in
    let (k', leaves, h) =
      after_loop k1 k3 q j main value exit_sys v1 e busy not_main word_flags attached joined other
        alive suspended life in
    (
      k',
      exit_steps k k1 k3 fuel value exit_sys main (away k' (λ k4. done tt (switched_in k4))) freed
          dropped leaves,
      h,
    )
