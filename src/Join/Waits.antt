-- ===== src/Join/Waits.antt =====
-- A thread that joins one that has not finished leaves the processor.
use l4ertl.Sched.Leaves.{left, scheduling-dropped}
use l4ertl.Flags.{finished_thread}
use l4ertl.Pthread.{no_thread}
use l4ertl.Sched.{remove_active, suspend_thread, switched_in, charge_time, state_of, outside_irqs}
use l4ertl.Sched.Switch.{IsKernel-same, IsNext}
use l4ertl.Sched.Invariant.{suspend_thread-IsKernel, IsKernel}
use l4ertl.Base.{
  none, if◌then◌else◌, Bool-cases, refl, arith, suc, Option, ◌==◌, false, inr, inl, ◌≡◌, ◌≢◌,
  bit_and, ℕ, Ptr,
}
use l4ertl.Ready.Queues.{drop, Queues}
use l4ertl.Kernel.{einval, set_errno, failure, done, set_thread, away, Outcome, and_then, Kernel}
use l4ertl.Join.{
  einval, set_errno, failure, remove_active, suspend_thread, done, set_thread, wait_for, Outcome,
  finished_thread, state_of, is_detached, no_thread, Ptr, and_then, Kernel, join_rounds,
  pthread_join_sys,
}

-- What the caller does when it is switched back in.
abbrev pub resumed : ℕ → (Ptr → Kernel → Kernel) → Ptr → Kernel → Outcome (ℕ × Option ℕ)
resumed rounds release t k' =
    let k1 = switched_in k' in
    if is_detached t k1
    then done (failure, none) (set_errno einval k1)
    else join_rounds rounds release t k1

-- What holds of the kernel as the caller leaves the processor.
abbrev pub HasLeft : Kernel → Queues → Ptr → Kernel → Type 0
HasLeft k q t k' =
    IsKernel k' (drop k.current_thread q)
    × IsNext (drop k.current_thread q) k'.idle_thread k'.current_thread
    × ((k'.threads t).joining_thread ≡ k.current_thread)

-- The kernel in which the caller calls the scheduler.
waiting-IsKernel :
    (k : Kernel) (q : Queues) (t : Ptr)
    → IsKernel k q
    → IsKernel (wait_for t k) (drop k.current_thread q)
waiting-IsKernel k q t v =
    let joined = record (k.threads t) { joining_thread = k.current_thread } in
    suspend_thread-IsKernel (set_thread t joined k) q k.current_thread
      (IsKernel-same k (set_thread t joined k) q v refl (λ x. ground arith))

waiting-kept :
    (k : Kernel) (t : Ptr)
    → ((wait_for t k).idle_thread ≡ k.idle_thread)
      × ((wait_for t k).irq_nesting_counter ≡ k.irq_nesting_counter)
      × ((wait_for t k).current_thread ≡ k.current_thread)
      × (((wait_for t k).threads t).joining_thread ≡ k.current_thread)
unfolding suspend_thread
waiting-kept k t =
    let joined = record (k.threads t) { joining_thread = k.current_thread } in
    let k0 = remove_active k.current_thread (set_thread t joined k) in
    elim (Bool-cases (state_of k0 k.current_thread == finished_thread)) [
      | inl e ↦ rw e (refl, refl, refl, ground arith)
      | inr e ↦ rw e (refl, refl, refl, ground arith)
    ]

-- Where the queues are held and no interrupt is being served, and the caller is not the idle thread: a call for a living thread that is neither detached nor finished makes the caller leave the
-- processor for the thread that is then to run, in no queue and noted as the one that the thread wakes.
-- When the caller is switched back in, it fails if the thread was detached, and else joins it again.
pub pthread_join_sys-HasLeft :
    (k : Kernel) (q : Queues) (t : Ptr) (rounds : ℕ) (release : Ptr → Kernel → Kernel)
    → IsKernel k q
    → bit_and k.irq_nesting_counter outside_irqs ≡ 0
    → k.current_thread ≢ k.idle_thread
    → no_thread t k ≡ false
    → is_detached t k ≡ false
    → (state_of k t == finished_thread) ≡ false
    → (k' : Kernel) × (pthread_join_sys (suc rounds) release t k
        ≡ away k' (resumed rounds release t))
      × HasLeft k q t k'
unfolding pthread_join_sys join_rounds and_then charge_time
pthread_join_sys-HasLeft k q t rounds release v e busy exists attached running =
    let kw = wait_for t k in
    let v1 = waiting-IsKernel k q t v in
    let (idle, nesting, cur, joining) = waiting-kept k t in
    let (leaves, held, next) = scheduling-dropped k kw q v v1 idle nesting cur e busy in
    (left kw, rw (exists, attached, running, leaves) refl, (held, next, ground (arith, joining)))
