-- ===== src/Cond/Waits.antt =====
-- A thread that waits on a condition variable leaves the processor.
use l4ertl.Base.{ℕ, Ptr, List, ◌∷◌, ◌≡◌, ◌≢◌, false, update, refl, arith, bit_and}
use l4ertl.Chain.{has}
use l4ertl.Cond.{sleep_on_cond, wait_on_cond}
use l4ertl.Cond.Laws.{CondLists}
use l4ertl.Kernel.{Kernel, away, done, and_then, success}
use l4ertl.Mutex.{pthread_mutex_lock_sys}
use l4ertl.Ready.Queues.{Queues, drop}
use l4ertl.Sched.{switched_in, suspend_thread, outside_irqs, charge_time}
use l4ertl.Sched.Invariant.{IsKernel, IsAlive, suspend_thread-IsKernel, alive-ne-null}
use l4ertl.Sched.Leaves.{left, scheduling-dropped, suspend_thread_idle}
use l4ertl.Sched.Objects.{suspend_thread-SameObjects}
use l4ertl.Sched.Switch.{IsNext, IsKernel-same}
use l4ertl.ThreadList.Lists.{insert_pthread_list-IsLists, IsLists-ext}

-- What holds of the kernel as the caller leaves the processor to wait on the condition variable `c`.
abbrev pub WaitsOnCond : Kernel → Queues → (Ptr → List Ptr) → Ptr → Kernel → Type 0
WaitsOnCond k q w c k' =
    IsKernel k' (drop k.current_thread q)
    × IsNext (drop k.current_thread q) k'.idle_thread k'.current_thread
    × CondLists k' (update w c (k.current_thread ∷ w c))
    × (k'.mutexes ≡ k.mutexes)

-- Where the queues are held, the condition variables have their waiting threads and no interrupt is being
-- served, and the caller lives, waits on no condition variable and is not the idle thread: once
-- `pthread_cond_wait_sys` has unlocked the mutex, the caller leaves the processor for the thread that is
-- then to run, in no queue and in front of the threads that wait on the condition variable. When it is
-- switched back in, it locks the mutex again and returns 0.
pub sleep_on_cond-Waits :
    (k : Kernel) (q : Queues) (w : Ptr → List Ptr) (c m : Ptr) (rounds : ℕ)
    → IsKernel k q
    → CondLists k w
    → bit_and k.irq_nesting_counter outside_irqs ≡ 0
    → k.current_thread ≢ k.idle_thread
    → IsAlive k k.current_thread
    → ((o : Ptr) → has k.current_thread (w o) ≡ false)
    → (k' : Kernel) × (sleep_on_cond rounds c m k
        ≡ away k' (λ k1.
          and_then (pthread_mutex_lock_sys rounds m (switched_in k1)) (λ _ k2. done success k2)))
      × WaitsOnCond k q w c k'
unfolding sleep_on_cond and_then charge_time
sleep_on_cond-Waits k q w c m rounds v lists e busy alive out =
    let t = k.current_thread in
    let k1 = suspend_thread t k in
    let same = suspend_thread-SameObjects t k in
    let kw = wait_on_cond c t k1 in
    let v1 : IsKernel kw (drop t q) =
      IsKernel-same k1 kw (drop t q) (suspend_thread-IsKernel k q t v) refl
        (λ x. (refl, refl, refl)) in
    let lists1 : CondLists k1 w = rw (same.2, same.3) lists in
    let lists2 : CondLists kw (update w c (t ∷ w c)) =
      IsLists-ext _ _ _ _ _ _
        (insert_pthread_list-IsLists k1.cond_links k1.conds w lists1 c t
          (alive-ne-null k q v t alive) out)
        (λ x. (refl, refl, ground arith)) (λ x. refl) in
    let (leaves, held, next) =
      scheduling-dropped k kw q v v1 (suspend_thread_idle t k) same.6 same.7 e busy in
    (left kw, rw (leaves, sleep_on_cond) refl, (held, next, lists2, same.5))
