-- ===== src/Sched/Leaves.antt =====
-- A thread that has been taken out of its queue leaves the processor.
use l4ertl.Chain.{has}
use l4ertl.Sched.{suspend_thread, switched_in, charge_time, new_thread, scheduling, outside_irqs}
use l4ertl.Sched.Switch.{new_thread-IsNext, IsKernel-same, IsNext}
use l4ertl.Sched.Invariant.{drop-Absent, IsKernel}
use l4ertl.Base.{
  sym, subst, ◌∙◌, Bool-cases, ◌%◌, ◌/◌, true, refl, ap, arith, ◌==◌, false, inr, inl, ◌≡◌, ◌≢◌,
  bit_and, Ptr,
}
use l4ertl.Ready.Queues.{Absent, drop, Queues}
use l4ertl.Kernel.{away, done, Kernel}

-- A thread that is in no queue and is not the idle thread is not the next one.
next-other : (q : Queues) (t idle : Ptr) → Absent t q → t ≢ idle → IsNext q idle t → ⊥
next-other q t idle out busy (inl (prio, best)) =
    absurd (ground (arith, out (prio / 32) (prio % 32), ap (has t) best.first))
next-other q t idle out busy (inr (same, none_ready)) = busy same

scheduling-leaves :
    (k : Kernel) (q : Queues)
    → IsKernel k q
    → bit_and k.irq_nesting_counter outside_irqs ≡ 0
    → (new_thread k == k.current_thread) ≡ false
    → scheduling k
      ≡ away
          (record (charge_time k) { current_thread = new_thread k })
          (λ k'. done tt (switched_in k'))
unfolding scheduling
scheduling-leaves k q v e other =
    let test : (bit_and k.irq_nesting_counter outside_irqs == 0) ≡ true = ground (arith, e) in
    rw (test, other) refl

-- The kernel as `scheduling` leaves it for another thread.
abbrev pub left : Kernel → Kernel
left k = record (charge_time k) { current_thread = new_thread k }

-- From a kernel whose current thread is in no queue and is not the idle one.
pub scheduling-HasLeft :
    (k : Kernel) (q : Queues)
    → IsKernel k q
    → Absent k.current_thread q
    → bit_and k.irq_nesting_counter outside_irqs ≡ 0
    → k.current_thread ≢ k.idle_thread
    → (scheduling k ≡ away (left k) (λ k'. done tt (switched_in k')))
      × IsKernel (left k) q
      × IsNext q k.idle_thread (new_thread k)
unfolding charge_time
scheduling-HasLeft k q v out e busy =
    let next = new_thread-IsNext k q v.ready in
    let other : (new_thread k == k.current_thread) ≡ false =
      elim (Bool-cases (new_thread k == k.current_thread)) [
        | inl stays ↦ absurd (
            next-other q k.current_thread k.idle_thread out busy (
              subst (IsNext q k.idle_thread)
                (let itself : new_thread k ≡ k.current_thread = ground (arith, stays) in itself)
                next))
        | inr leaves ↦ leaves
      ] in
    (scheduling-leaves k q v e other, IsKernel-same k _ q v refl (λ x. ground arith), next)

-- The same for the thread that ran in an earlier kernel and has been taken out since.
pub scheduling-dropped :
    (k kw : Kernel) (q : Queues)
    → IsKernel k q
    → IsKernel kw (drop k.current_thread q)
    → kw.idle_thread ≡ k.idle_thread
    → kw.irq_nesting_counter ≡ k.irq_nesting_counter
    → kw.current_thread ≡ k.current_thread
    → bit_and k.irq_nesting_counter outside_irqs ≡ 0
    → k.current_thread ≢ k.idle_thread
    → (scheduling kw ≡ away (left kw) (λ k'. done tt (switched_in k')))
      × IsKernel (left kw) (drop k.current_thread q)
      × IsNext (drop k.current_thread q) kw.idle_thread (new_thread kw)
scheduling-dropped k kw q v v1 idle nesting cur e busy =
    scheduling-HasLeft kw (drop k.current_thread q) v1 (rw cur (drop-Absent k q v k.current_thread))
      (ap (λ c. bit_and c outside_irqs) nesting ∙ e) (λ same. busy (sym cur ∙ same ∙ idle))

pub suspend_thread_idle : (t : Ptr) (k : Kernel) → (suspend_thread t k).idle_thread ≡ k.idle_thread
unfolding suspend_thread
suspend_thread_idle t k = ground arith
