-- ===== src/Tests/SystemTests.antt =====
-- Two threads and a semaphore at work.
use l4ertl.Base.{ℕ, Ptr, null, [], none, some, Option, inl, refl, arith}
use l4ertl.Kernel.{Kernel, Outcome, done, and_then}
use l4ertl.SigAction.{SignalAction}
use l4ertl.System.{World, sem_post, sem_wait, run, after, called, next, here, Reach, returning}
use l4ertl.System.Runs.{Reach-IsSafe, Reach-GoesOn, GoesOn, IsSafeWorld}
use l4ertl.Tests.{running-IsKernel, running, running_queues, some_waiters, some_waiters-IsLists}
use mathlib.Core.Option.{none-ne-some}
use l4ertl.Flags.{get_thread_state}

abbrev get_or : World → Option World → World
get_or w none = w
get_or w (some u) = u

-- Thread 1 runs, and thread 2 waits on the semaphore 100.
abbrev world0 : World
world0 = record { kernel = running; paused = λ t. none }

-- Thread 1 has posted it, and thread 2 runs.
abbrev world1 : World
world1 = get_or world0 (after 1 world0.paused (run 0 (sem_post 100) world0.kernel))

-- Thread 2 waits on it again.
abbrev world2 : World
world2 = get_or world1 (after 2 world1.paused (run 0 (sem_wait 100) world1.kernel))

abbrev no_handler : Ptr → ℕ → Kernel → Outcome (Unit {0})
no_handler a n k = done tt k

abbrev no_actions : ℕ → SignalAction
no_actions n = record { sa_handler = null; sa_mask = 0 }

world0-IsSafeWorld : IsSafeWorld world0
unfolding running running_queues get_thread_state l4ertl.Ready.prio2ij
world0-IsSafeWorld = (
  (
    running_queues,
    some_waiters,
    record {
      held = running-IsKernel;
      lists = some_waiters-IsLists;
      waiting_is_suspended = λ t o h. ground arith;
    },
    inl (
      5,
      record { in_range = omega arith; rest = []; first = refl; above = λ p lt. ground arith },
    ),
    inl refl,
  ),
  λ t rest e. absurd (none-ne-some rest e),
)

-- Thread 1 posts the semaphore, and thread 2 waits on it again, so that thread 1 is in its call again.
world2-Reach : Reach no_handler no_actions world0 world2
unfolding after run returning and_then running get_thread_state l4ertl.Semaphore.sem_post_sys
    l4ertl.Semaphore.sem_wait_sys l4ertl.ThreadList.remove_head_pthread_list
    l4ertl.ThreadList.insert_pthread_list l4ertl.Ready.get_head_ss l4ertl.Ready.insert_ss
    l4ertl.Ready.remove_ss l4ertl.Bitmap.setbit l4ertl.Bitmap.clearbit l4ertl.BitOp.ffs
    l4ertl.Flags.set_thread_state l4ertl.Flags.set_field
world2-Reach =
    next (next here (called 0 (sem_post 100) (ground arith) refl refl))
      (called 0 (sem_wait 100) (ground arith) refl refl)

Reach-IsSafe_example : IsSafeWorld world2
Reach-IsSafe_example =
    Reach-IsSafe no_handler no_actions (λ a n k h. h) world0-IsSafeWorld world2-Reach

Reach-GoesOn_example : GoesOn (sem_wait 100) world0
unfolding running
Reach-GoesOn_example =
    Reach-GoesOn no_handler no_actions (λ a n k h. h) (sem_wait 100) world0-IsSafeWorld here
      (ground arith)
