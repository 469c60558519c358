-- ===== src/Tests/SignalTests.antt =====
-- Signals at concrete kernels.
use l4ertl.Flags.{ready_thread, finished_thread}
use l4ertl.Sched.{state_of}
use l4ertl.Signal.Laws.{pthread_kill_sys-wakes, sigwait_sys-lowest, IsUnmasked, IsAwaited}
use l4ertl.Sched.Invariant.{IsKernel}
use l4ertl.Bits.{test_bit}
use l4ertl.Ready.Queues.{Queues}
use l4ertl.Tests.{some_kernel-IsKernel, no_queues, IsKernel, Queues, some_thread, some_kernel}
use l4ertl.Signal.{sigwait_sys, pthread_kill_sys}
use l4ertl.Base.{refl, arith, not, ◌&&◌, ◌≢◌, ◌==◌, ◌||◌, ◌<◌, ◌≡◌, some, ℕ}
use l4ertl.Kernel.{current, success, done, set_thread, Kernel}
use Prim.Native.Nat.{ℕ}

-- Thread 1 with the signals 7 and 9 pending.
abbrev signalled : Kernel
signalled = set_thread 1 (record (some_thread 1) { sigpending = 640 }) some_kernel

sigwait_sys-lowest_example :
    (sig : ℕ) × (k1 : Kernel) × (sigwait_sys (some 896) signalled ≡ done (success, some sig) k1)
    × (sig < 32)
    × IsAwaited 896 signalled sig
    × ((i : ℕ) → i < sig → ¬ IsAwaited 896 signalled i)
    × ((i : ℕ)
        → i < 32
        → test_bit (current k1).sigpending i
          ≡ (test_bit (current signalled).sigpending i && not (sig == i)))
unfolding test_bit
sigwait_sys-lowest_example =
    sigwait_sys-lowest 896 signalled 9 (omega arith) (omega arith) (omega arith)
      (omega arith, refl, refl)

pthread_kill_sys-wakes_example :
    (k' : Kernel) × (pthread_kill_sys 2 7 some_kernel ≡ done success k')
    × ((q' : Queues) × IsKernel k' q')
    × ((i : ℕ)
        → test_bit (k'.threads 2).sigpending i
          ≡ (test_bit (some_kernel.threads 2).sigpending i || 7 == i))
    × (IsUnmasked 7 (some_kernel.threads 2).sigmask
        → state_of some_kernel 2 ≢ finished_thread
        → state_of k' 2 ≡ ready_thread)
pthread_kill_sys-wakes_example =
    pthread_kill_sys-wakes 2 7 some_kernel no_queues some_kernel-IsKernel refl (omega arith)
      (omega arith) (omega arith)
