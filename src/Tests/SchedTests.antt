-- ===== src/Tests/SchedTests.antt =====
-- The scheduler at concrete kernels.
use l4ertl.Join.Waits.{pthread_join_sys-HasLeft, HasLeft, resumed}
use l4ertl.Join.{pthread_join_sys}
use l4ertl.Base.{arith, refl, ◌≡◌}
use l4ertl.Ready.{prio2ij}
use l4ertl.Sched.Switch.{
  scheduling-IsNext, pthread_yield_sys-IsNext, charge_time-switched_in, yielded, IsNext, StopsIn,
}
use l4ertl.Flags.{get_thread_detach_state, get_thread_state}
use l4ertl.Kernel.{away, Kernel, current, set_current}
use l4ertl.Sched.Invariant.{IsKernel}
use l4ertl.Sched.{scheduling, pthread_yield_sys, switched_in, activate_thread, charge_time}
use l4ertl.Tests.{running-IsKernel, some_kernel, prio2ij, get_thread_state, running_queues, running}

scheduling-IsNext_example :
    StopsIn
      (λ k'. IsKernel k' running_queues × IsNext running_queues k'.idle_thread k'.current_thread)
      (scheduling running)
unfolding running activate_thread get_thread_state
scheduling-IsNext_example = scheduling-IsNext running running_queues running-IsKernel refl

pthread_yield_sys-IsNext_example :
    StopsIn
      (λ k'.
        IsKernel k' (yielded running running_queues)
        × IsNext (yielded running running_queues) k'.idle_thread k'.current_thread)
      (pthread_yield_sys 8 running)
unfolding running running_queues activate_thread get_thread_state prio2ij
    l4ertl.Flags.set_thread_state l4ertl.Flags.set_field
pthread_yield_sys-IsNext_example =
    pthread_yield_sys-IsNext 8 running running_queues running-IsKernel refl refl refl (omega arith)

-- The thread of `some_kernel` after it has left the processor and has got a signal.
abbrev signalled_since : Kernel
unfolding charge_time
signalled_since =
    let k = charge_time some_kernel in set_current (record (current k) { sigpending = 640 }) k

charge_time-switched_in_example :
    (current (charge_time (switched_in signalled_since))).used_time ≡ 91
unfolding charge_time switched_in
charge_time-switched_in_example =
    charge_time-switched_in some_kernel signalled_since refl (omega arith) (omega arith)
      (omega arith) (omega arith)

pthread_join_sys-HasLeft_example :
    (k' : Kernel) × (pthread_join_sys 1 (λ t k. k) 2 running ≡ away k' (resumed 0 (λ t k. k) 2))
    × HasLeft running running_queues 2 k'
unfolding running get_thread_detach_state get_thread_state
pthread_join_sys-HasLeft_example =
    pthread_join_sys-HasLeft running running_queues 2 0 (λ t k. k) running-IsKernel refl
      (λ e. absurd (omega (arith, e))) refl refl refl
