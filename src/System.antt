-- ===== src/System.antt =====
-- The threads together: the processor runs one thread at a time, a thread that `context_switch_to` has
-- left in the middle of a call goes on with it when it is switched back in (server/core/port/sched.c), and
-- between two calls an interrupt may come (server/core/common/irqs-l4.c) and post a semaphore.
pub mod Safe
pub mod Calls
pub mod Irq
pub mod Yield
pub mod Runs
use l4ertl.Base.{ℕ, Ptr, null, Option, some, none, update, ◌≡◌, ◌≢◌}
use l4ertl.Kernel.{Kernel, Outcome, done, away, stuck, and_then}
use l4ertl.Semaphore.{sem_wait_sys, sem_trywait_sys, sem_post_sys}
use l4ertl.Sched.{pthread_yield_sys}
use l4ertl.Interrupt.{do_irq}
use l4ertl.SigAction.{SignalAction}

-- What is left of the call of a thread that has left the processor.
abbrev pub Rest : Type 0
Rest = Kernel → Outcome (Unit {0})

pub record World : Type 0 where
  pub kernel : Kernel
  pub paused : Ptr → Option Rest

-- The calls that a thread makes.
pub data Call : Type 0 where
  sem_wait sem_trywait sem_post : Ptr → Call
  pthread_yield : Call

-- What the thread sees of the result is left out.
unfoldable pub returning : {A : Type 0} → Outcome A → Outcome (Unit {0})
unfolding and_then
returning o = and_then o (λ _ k. done tt k)

unfoldable pub run : ℕ → Call → Kernel → Outcome (Unit {0})
run fuel (sem_wait s) k = returning (sem_wait_sys s k)
run fuel (sem_trywait s) k = returning (sem_trywait_sys s k)
run fuel (sem_post s) k = returning (sem_post_sys s k)
run fuel pthread_yield k = returning (pthread_yield_sys fuel k)

-- The world once the thread `t` has returned from a call or left the processor in it; `none` if fuel
-- ran out.
unfoldable pub after : Ptr → (Ptr → Option Rest) → Outcome (Unit {0}) → Option World
after t paused (done a k) = some (record { kernel = k; paused = paused })
after t paused (away k rest) = some (record { kernel = k; paused = update paused t (some rest) })
after t paused stuck = none

-- `call` runs the handler of a signal, and `table` holds those of the process.
module _ (call : Ptr → ℕ → Kernel → Outcome (Unit {0})) (table : ℕ → SignalAction) where
  -- The thread that runs makes a call; goes on with the one it had left; or is interrupted between
  -- two calls, by an interrupt whose handler posts a semaphore.
  pub data Step (w u : World) : Type 0 where
    called :
        (fuel : ℕ) (c : Call)
        → w.kernel.current_thread ≢ w.kernel.idle_thread
        → w.paused w.kernel.current_thread ≡ none
        → after w.kernel.current_thread w.paused (run fuel c w.kernel) ≡ some u
        → Step w u
    resumed :
        (rest : Rest)
        → w.paused w.kernel.current_thread ≡ some rest
        → after w.kernel.current_thread
            (update w.paused w.kernel.current_thread none)
            (rest w.kernel)
          ≡ some u
        → Step w u
    interrupted :
        (s : Ptr)
        → w.paused w.kernel.current_thread ≡ none
        → after w.kernel.current_thread w.paused
            (do_irq (λ k. returning (sem_post_sys s k)) call table w.kernel)
          ≡ some u
        → Step w u

  pub data Reach (w : World) : World → Type 0 where
    here : Reach w w
    next : {u v : World} → Reach w u → Step u v → Reach w v
