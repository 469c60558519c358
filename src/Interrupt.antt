-- ===== src/Interrupt.antt =====
-- server/core/common/irqs-l4.c. The handler of an interrupt is what it does to the kernel; the
-- acknowledgements to the interrupt controller (`hw_ack_irq`, `hw_end_irq`) write its registers only, and
-- are left out.
use l4ertl.Base.{ℕ, Ptr, word, ◌+◌, ◌-◌, ◌%◌, ◌==◌, if◌then◌else◌}
use l4ertl.Kernel.{Kernel, Outcome, done, and_then}
use l4ertl.Sched.{scheduling, sched_pending}
use l4ertl.Deliver.{do_signals}
use l4ertl.SigAction.{SignalAction}

-- `irq_nesting_counter ++`, over 32 bits.
abbrev pub enter_irq : Kernel → Kernel
enter_irq k = record k { irq_nesting_counter = (k.irq_nesting_counter + 1) % word }

-- `irq_nesting_counter --`, over 32 bits.
abbrev pub leave_irq : Kernel → Kernel
leave_irq k = record k { irq_nesting_counter = (k.irq_nesting_counter + word - 1) % word }

unfoldable pub do_irq :
    (Kernel → Outcome (Unit {0}))
    → (Ptr → ℕ → Kernel → Outcome (Unit {0}))
    → (ℕ → SignalAction)
    → Kernel
    → Outcome (Unit {0})
unfolding and_then scheduling do_signals
do_irq handler call table k =
    and_then
      (and_then (handler (enter_irq k)) (λ _ k1.
        let k2 = leave_irq k1 in
        if k2.irq_nesting_counter == sched_pending then scheduling k2 else done tt k2))
      (λ _ k3. do_signals call table k3)
