-- ===== src/Tests/LeaveTests.antt =====
-- A thread that ends, and those that wait for a mutex or on a condition variable.
use l4ertl.Cond.Waits.{sleep_on_cond-Waits, WaitsOnCond}
use l4ertl.Cond.{sleep_on_cond}
use l4ertl.Base.{ℕ, ◌≡◌, refl, arith, update}
use l4ertl.Kernel.{success, and_then, Kernel, Outcome, away, done}
use l4ertl.Sched.{switched_in}
use l4ertl.Sched.Invariant.{IsKernel}
use l4ertl.Sched.Switch.{IsKernel-same}
use l4ertl.Mutex.{pthread_mutex_lock_sys}
use l4ertl.Mutex.Waits.{WaitsForMutex, pthread_mutex_lock_sys-Waits}
use l4ertl.Exit.{pthread_exit_sys}
use l4ertl.Exit.Leaves.{HasEnded, pthread_exit_sys-HasEnded}
use l4ertl.Tests.{running, running_queues, running-IsKernel, some_waiters, some_waiters-IsLists}

-- Thread 1 runs, for which thread 2 waits, and the mutexes belong to thread 3.
abbrev joined_kernel : Kernel
joined_kernel = record running {
  threads = update running.threads 1 (record (running.threads 1) { joining_thread = 2 });
  mutexes = λ o. record (running.mutexes o) { owner = 3 };
}

joined_kernel-IsKernel : IsKernel joined_kernel running_queues
joined_kernel-IsKernel =
    IsKernel-same running joined_kernel running_queues running-IsKernel refl (λ t. ground arith)

pthread_mutex_lock_sys-Waits_example :
    (k' : Kernel) × (pthread_mutex_lock_sys 3 100 joined_kernel
      ≡ away k' (λ k1. pthread_mutex_lock_sys 2 100 (switched_in k1)))
    × WaitsForMutex joined_kernel running_queues some_waiters 100 k'
unfolding running l4ertl.Sched.activate_thread l4ertl.Flags.get_thread_state
pthread_mutex_lock_sys-Waits_example =
    pthread_mutex_lock_sys-Waits joined_kernel running_queues some_waiters 100 2
      joined_kernel-IsKernel some_waiters-IsLists refl (ground arith) refl (λ o. ground arith)
      (ground arith) (ground arith)

abbrev no_exit : ℕ → Kernel → Outcome (Unit {0})
no_exit status k = done tt k

pthread_exit_sys-HasEnded_example :
    (k' : Kernel) × (pthread_exit_sys no_exit 9 4 7 joined_kernel
      ≡ away k' (λ k1. done tt (switched_in k1)))
    × HasEnded 1 2 k'
unfolding running l4ertl.Sched.activate_thread l4ertl.Flags.get_thread_state
    l4ertl.Flags.get_thread_detach_state l4ertl.Flags.set_thread_state l4ertl.Flags.set_field
pthread_exit_sys-HasEnded_example =
    pthread_exit_sys-HasEnded joined_kernel running_queues 2 9 4 7 no_exit joined_kernel-IsKernel
      refl (ground arith) (ground arith) (omega arith) refl refl (ground arith) refl refl
      (omega arith) (omega arith)

sleep_on_cond-Waits_example :
    (k' : Kernel) × (sleep_on_cond 3 100 101 joined_kernel
      ≡ away k' (λ k1.
        and_then (pthread_mutex_lock_sys 3 101 (switched_in k1)) (λ _ k2. done success k2)))
    × WaitsOnCond joined_kernel running_queues some_waiters 100 k'
unfolding running l4ertl.Sched.activate_thread l4ertl.Flags.get_thread_state
sleep_on_cond-Waits_example =
    sleep_on_cond-Waits joined_kernel running_queues some_waiters 100 101 3 joined_kernel-IsKernel
      some_waiters-IsLists refl (ground arith) refl (λ o. ground arith)
