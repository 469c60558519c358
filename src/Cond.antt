-- ===== src/Cond.antt =====
-- The condition variables of server/core/port/pthread.c. A condition variable is its address, and
-- `conds` holds its field `cond_list`.
pub mod Laws
pub mod Waits
use l4ertl.ThreadList.{remove_head_pthread_list, insert_pthread_list}
use l4ertl.Kernel.{stuck, eperm, einval, fail, success, done, and_then, Outcome, Kernel}
use l4ertl.Mutex.{pthread_mutex_lock_sys, pthread_mutex_unlock_sys}
use l4ertl.Wake.{wake_all}
use l4ertl.Base.{some, none, ◌||◌, null, not, ◌==◌, if◌then◌else◌, update, ℕ, Ptr}
use l4ertl.Sched.{scheduling, suspend_thread, activate_thread}

abbrev pub set_cond : Ptr → Ptr → Kernel → Kernel
set_cond c v k = record k { conds = update k.conds c v }

unfoldable pub pthread_cond_init_sys : Ptr → Kernel → Outcome ℕ
pthread_cond_init_sys c k =
    if not (c == null) then done success (set_cond c null k) else fail einval k

-- remove_head_pthread_list (&cond -> cond_list)
abbrev pub pop_cond : Ptr → Kernel → Kernel
pop_cond c k =
    let listed = remove_head_pthread_list (k.conds c) k.cond_links in
    set_cond c listed.head (record k { cond_links = listed.links })

-- insert_pthread_list (&cond -> cond_list, &t -> cond_list)
abbrev pub wait_on_cond : Ptr → Ptr → Kernel → Kernel
wait_on_cond c t k =
    let listed = insert_pthread_list (k.conds c) t k.cond_links in
    set_cond c listed.head (record k { cond_links = listed.links })

unfoldable pub pthread_cond_signal_sys : Ptr → Kernel → Outcome ℕ
unfolding activate_thread scheduling
pthread_cond_signal_sys c k =
    if c == null
    then fail einval k
    else (let thread = (remove_head_pthread_list (k.conds c) k.cond_links).result in
        let k1 = pop_cond c k in
        and_then (scheduling (if not (thread == null) then activate_thread thread k1 else k1))
          (λ _ k2. done success k2))

-- The loop takes fuel.
unfoldable pub pthread_cond_broadcast_sys : ℕ → Ptr → Kernel → Outcome ℕ
unfolding wake_all scheduling
pthread_cond_broadcast_sys fuel c k =
    if c == null then fail einval k else elim (wake_all fuel (k.conds c) k.cond_links k) [
      | none ↦ stuck
      | some woken ↦
          and_then
            (scheduling (set_cond c woken.head (record woken.result { cond_links = woken.links })))
            (λ _ k1. done success k1)
    ]

-- What follows the unlocking in `pthread_cond_wait_sys`.
unfoldable pub sleep_on_cond : ℕ → Ptr → Ptr → Kernel → Outcome ℕ
unfolding suspend_thread scheduling pthread_mutex_lock_sys
sleep_on_cond rounds c m k =
    and_then (scheduling (wait_on_cond c k.current_thread (suspend_thread k.current_thread k)))
      (λ _ k1. and_then (pthread_mutex_lock_sys rounds m k1) (λ _ k2. done success k2))

-- `fuel` is for the unlocking, `rounds` for the locking.
unfoldable pub pthread_cond_wait_sys : ℕ → ℕ → Ptr → Ptr → Kernel → Outcome ℕ
unfolding pthread_mutex_unlock_sys sleep_on_cond
pthread_cond_wait_sys fuel rounds c m k =
    if c == null || m == null
    then fail einval k
    else if not ((k.mutexes m).owner == k.current_thread)
    then fail eperm k
    else and_then (pthread_mutex_unlock_sys fuel m k) (λ _ k1. sleep_on_cond rounds c m k1)

unfoldable pub pthread_cond_destroy_sys : Ptr → Kernel → Outcome ℕ
pthread_cond_destroy_sys c k = done success k
