-- ===== src/Mutex/Waits.antt =====
-- A thread that locks a mutex of another one leaves the processor.
use l4ertl.Base.{ℕ, suc, Ptr, null, List, ◌∷◌, ◌≡◌, ◌≢◌, false, update, refl, arith, bit_and, ◌==◌}
use l4ertl.Chain.{has}
use l4ertl.Kernel.{Kernel, away, and_then}
use l4ertl.Mutex.{pthread_mutex_lock_sys, wait_on_mutex}
use l4ertl.Mutex.Laws.{MutexLists}
use l4ertl.Ready.Queues.{Queues, drop}
use l4ertl.Sched.{switched_in, suspend_thread, outside_irqs, charge_time}
use l4ertl.Sched.Invariant.{IsKernel, IsAlive, suspend_thread-IsKernel, alive-ne-null}
use l4ertl.Sched.Leaves.{left, scheduling-dropped, suspend_thread_idle}
use l4ertl.Sched.Objects.{suspend_thread-SameObjects}
use l4ertl.Sched.Switch.{IsNext, IsKernel-same}
use l4ertl.ThreadList.Lists.{insert_pthread_list-IsLists, IsLists-ext}

-- What holds of the kernel as the caller leaves the processor to wait for the mutex `m`.
abbrev pub WaitsForMutex : Kernel → Queues → (Ptr → List Ptr) → Ptr → Kernel → Type 0
WaitsForMutex k q w m k' =
    IsKernel k' (drop k.current_thread q)
    × IsNext (drop k.current_thread q) k'.idle_thread k'.current_thread
    × MutexLists k' (update w m (k.current_thread ∷ w m))
    × ((k'.mutexes m).owner ≡ (k.mutexes m).owner)

-- Where the queues are held, the mutexes have their waiting threads and no interrupt is being served, and
-- the caller lives, waits for no mutex and is not the idle thread: locking a mutex that another thread
-- owns makes the caller leave the processor for the thread that is then to run, in no queue and in
-- front of the threads that wait for the mutex, which keeps its owner. When the caller is switched back
-- in, it tries again to lock it.
pub pthread_mutex_lock_sys-Waits :
    (k : Kernel) (q : Queues) (w : Ptr → List Ptr) (m : Ptr) (rounds : ℕ)
    → IsKernel k q
    → MutexLists k w
    → bit_and k.irq_nesting_counter outside_irqs ≡ 0
    → k.current_thread ≢ k.idle_thread
    → IsAlive k k.current_thread
    → ((o : Ptr) → has k.current_thread (w o) ≡ false)
    → (k.mutexes m).owner ≢ null
    → (k.mutexes m).owner ≢ k.current_thread
    → (k' : Kernel) × (pthread_mutex_lock_sys (suc rounds) m k
        ≡ away k' (λ k1. pthread_mutex_lock_sys rounds m (switched_in k1)))
      × WaitsForMutex k q w m k'
unfolding pthread_mutex_lock_sys and_then charge_time
pthread_mutex_lock_sys-Waits k q w m rounds v lists e busy alive out owned other =
    let t = k.current_thread in
    let k1 = suspend_thread t k in
    let same = suspend_thread-SameObjects t k in
    let kw = wait_on_mutex m t k1 in
    let v1 : IsKernel kw (drop t q) =
      IsKernel-same k1 kw (drop t q) (suspend_thread-IsKernel k q t v) refl
        (λ x. (refl, refl, refl)) in
    let lists1 : MutexLists k1 w = rw (same.4, same.5) lists in
    let lists2 : MutexLists kw (update w m (t ∷ w m)) =
      IsLists-ext _ _ _ _ _ _
        (insert_pthread_list-IsLists k1.mutex_links (λ o. (k1.mutexes o).mutex_list) w lists1 m t
          (alive-ne-null k q v t alive) out)
        (λ x. (refl, refl, ground arith)) (λ x. refl) in
    let (leaves, held, next) =
      scheduling-dropped k kw q v v1 (suspend_thread_idle t k) same.6 same.7 e busy in
    let test1 : ((k.mutexes m).owner == null) ≡ false = ground (arith, owned) in
    let test2 : ((k.mutexes m).owner == t) ≡ false = ground (arith, other) in
    let owner : (kw.mutexes m).owner ≡ (k.mutexes m).owner = ground (arith, same.5) in
    (left kw, rw (test1, test2, leaves, pthread_mutex_lock_sys) refl, (held, next, lists2, owner))
