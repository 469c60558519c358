-- ===== src/Tests/ObjectTests.antt =====
-- The lists of waiting threads and the objects at concrete kernels.
use l4ertl.Mutex.Laws.{pthread_mutex_unlock_sys-pthread_mutex_lock_sys, Locked}
use l4ertl.Wake.Laws.{wake_all-IsEmptied, IsEmptied}
use l4ertl.Cond.{pthread_cond_broadcast_sys}
use l4ertl.Tests.{
  some_waiters-IsLists, some_kernel-IsKernel, no_queues, no_links, some_head, some_waiters,
  some_kernel,
}
use l4ertl.Ready.Queues.{drop}
use l4ertl.Sched.Invariant.{IsAlive, activated}
use l4ertl.Wake.{wake_all}
use l4ertl.Cond.Laws.{pthread_cond_broadcast_sys-IsBroadcast, IsBroadcast}
use l4ertl.Mutex.{pthread_mutex_unlock_sys, pthread_mutex_lock_sys}
use l4ertl.Chain.{erase, has}
use l4ertl.Mutex.Release.{pthread_mutex_unlock_sys-IsFreed, IsFreed}
use l4ertl.Semaphore.Laws.{
  sem_trywait_sys-sem_post_sys, sem_wait_sys-Settled, sem_post_sys-Settled, Settled,
}
use l4ertl.Semaphore.{sem_trywait_sys, sem_wait_sys, sem_post_sys}
use l4ertl.Sched.Switch.{StopsIn}
use l4ertl.ThreadList.{remove_pthread_list, Listed}
use l4ertl.Kernel.{success, done, Kernel}
use l4ertl.Base.{inl, inr, refl, ◌+◌, ◌∷◌, arith, [], some, update, true, ◌≡◌, Ptr}
use l4ertl.ThreadList.Lists.{remove_pthread_list-IsLists, IsLists}

remove_pthread_list-IsLists_example :
    IsLists
      (remove_pthread_list (some_head 100) 2 no_links).links
      (update some_head 100 (remove_pthread_list (some_head 100) 2 no_links).head)
      (update some_waiters 100 (erase 2 (some_waiters 100)))
remove_pthread_list-IsLists_example =
    remove_pthread_list-IsLists no_links some_head some_waiters some_waiters-IsLists 100 2 refl

-- The thread 2 of the concrete lists lives.
waiter-IsAlive : (t : Ptr) → has t (some_waiters 100) ≡ true → IsAlive some_kernel t
waiter-IsAlive t h = ground arith

wake_all-IsEmptied_example :
    (r : Listed Kernel) × (wake_all 2 (some_head 100) no_links some_kernel ≡ some r)
    × IsEmptied 100 (2 ∷ []) some_waiters some_head some_kernel r
wake_all-IsEmptied_example =
    wake_all-IsEmptied 2 100 (2 ∷ []) some_waiters some_head no_links some_kernel no_queues
      (omega arith) refl some_waiters-IsLists some_kernel-IsKernel (λ t h. waiter-IsAlive t h)

sem_wait_sys-Settled_example :
    StopsIn
      (Settled (drop 1 no_queues) (update some_waiters 100 (1 ∷ some_waiters 100)))
      (sem_wait_sys 100 some_kernel)
sem_wait_sys-Settled_example =
    sem_wait_sys-Settled some_kernel no_queues some_waiters 100 some_kernel-IsKernel
      some_waiters-IsLists refl (ground arith) refl refl (λ a. ground arith)

sem_post_sys-Settled_example :
    StopsIn
      (Settled (activated some_kernel 2 no_queues) (update some_waiters 100 []))
      (sem_post_sys 100 some_kernel)
sem_post_sys-Settled_example =
    sem_post_sys-Settled some_kernel no_queues some_waiters 100 2 [] some_kernel-IsKernel
      some_waiters-IsLists refl (ground arith) refl refl refl

sem_trywait_sys-sem_post_sys_example :
    (k1 : Kernel) × (sem_post_sys 101 some_kernel ≡ done success k1)
    × ((k1.sems 101).value ≡ (some_kernel.sems 101).value + 1)
    × ((k2 : Kernel) × (sem_trywait_sys 101 k1 ≡ done success k2)
        × ((k2.sems 101).value ≡ (some_kernel.sems 101).value))
sem_trywait_sys-sem_post_sys_example =
    sem_trywait_sys-sem_post_sys some_kernel 101 (ground arith) (λ h. refl) (omega arith)

pthread_mutex_unlock_sys-pthread_mutex_lock_sys_example :
    (k1 : Kernel) × (pthread_mutex_lock_sys 1 101 some_kernel ≡ done success k1)
    × Locked 101 1 2 k1
    × ((k2 : Kernel) × (pthread_mutex_unlock_sys 1 101 k1 ≡ done success k2) × Locked 101 1 1 k2)
pthread_mutex_unlock_sys-pthread_mutex_lock_sys_example =
    pthread_mutex_unlock_sys-pthread_mutex_lock_sys 1 0 1 101 some_kernel (refl, refl)
      (ground arith) refl (omega arith) (omega arith)

pthread_mutex_unlock_sys-IsFreed_example :
    StopsIn (IsFreed 100 some_waiters some_kernel) (pthread_mutex_unlock_sys 2 100 some_kernel)
pthread_mutex_unlock_sys-IsFreed_example =
    pthread_mutex_unlock_sys-IsFreed 2 100 some_waiters some_kernel no_queues some_kernel-IsKernel
      some_waiters-IsLists refl refl (λ t h. waiter-IsAlive t h) (omega arith) refl
      (inr (inl (omega arith)))

pthread_cond_broadcast_sys-IsBroadcast_example :
    StopsIn
      (IsBroadcast 100 some_waiters some_kernel)
      (pthread_cond_broadcast_sys 2 100 some_kernel)
pthread_cond_broadcast_sys-IsBroadcast_example =
    pthread_cond_broadcast_sys-IsBroadcast 2 100 some_waiters some_kernel no_queues (ground arith)
      some_kernel-IsKernel some_waiters-IsLists refl (λ t h. waiter-IsAlive t h) (omega arith)
