-- ===== src/Mutex.antt =====
-- The mutexes of server/core/port/pthread.c. A mutex is its address. Each round of the loop of
-- `pthread_mutex_lock_sys` takes fuel, and so does each thread that `pthread_mutex_unlock_sys` wakes.
pub mod Laws
pub mod Release
pub mod Waits
use l4ertl.ThreadList.{insert_pthread_list}
use l4ertl.Sched.{change_thread_prio, scheduling, suspend_thread}
use l4ertl.Kernel.{
  einval, ebusy, edeadlk, success, eperm, and_then, done, current, fail, stuck, Outcome, Kernel,
  Mutex,
}
use l4ertl.Base.{
  ◌-◌, int_ltb, some, ◌&&◌, word, none, ◌%◌, ◌==◌, not, ◌+◌, update, if◌then◌else◌, Bool, zero,
  Option, null, Ptr, ℕ,
}
use l4ertl.Wake.{wake_all}
use Prim.Native.Nat.{suc, ℕ}

abbrev pub pthread_mutex_recursive : ℕ
pthread_mutex_recursive = 1

abbrev pub pthread_mutex_errorcheck : ℕ
pthread_mutex_errorcheck = 2

abbrev pub pthread_prio_protect : ℕ
pthread_prio_protect = 2

abbrev pub set_mutex : Ptr → Mutex → Kernel → Kernel
set_mutex m v k = record k { mutexes = update k.mutexes m v }

-- PTHREAD_MUTEX_INITIALIZER
abbrev pub mutex_initializer : Mutex
mutex_initializer = record {
  magic_number = 0xcbcb_cbcb;
  counter = 0;
  prio_protection = 2;
  prio = 0;
  type = 0;
  owner_prio = 0;
  owner = null;
  mutex_list = null;
}

-- `attr` is the mutex whose attributes are to be copied, if any.
unfoldable pub pthread_mutex_init_sys : Ptr → Option Mutex → Kernel → Outcome ℕ
pthread_mutex_init_sys m attr k =
    if not (m == null)
    then done success (
        set_mutex m
          (elim attr [
            | none ↦ mutex_initializer
            | some a ↦ record mutex_initializer {
              prio_protection = a.prio_protection;
              prio = a.prio;
              type = a.type;
              owner_prio = a.owner_prio;
            }
          ])
          k)
    else fail einval k

-- insert_pthread_list (&mutex -> mutex_list, &t -> mutex_list)
abbrev pub wait_on_mutex : Ptr → Ptr → Kernel → Kernel
wait_on_mutex m t k =
    let listed = insert_pthread_list (k.mutexes m).mutex_list t k.mutex_links in
    set_mutex m (record (k.mutexes m) { mutex_list = listed.head })
      (record k { mutex_links = listed.links })

-- What locking does to the priority, once the mutex has its owner.
unfoldable pub raise_priority : Ptr → Kernel → Outcome ℕ
raise_priority m k =
    if (k.mutexes m).prio_protection == pthread_prio_protect
    then (let own_prio = (current k).sched_priority in
        let k1 = set_mutex m (record (k.mutexes m) { owner_prio = own_prio }) k in
        if int_ltb (k1.mutexes m).prio own_prio
        then and_then (scheduling (change_thread_prio k1.current_thread (k1.mutexes m).prio k1))
            (λ _ k2. done success k2)
        else done success k1)
    else done success k

-- `mutex -> counter ++`
abbrev pub count_lock : Ptr → Kernel → Kernel
count_lock m k =
    set_mutex m (record (k.mutexes m) { counter = ((k.mutexes m).counter + 1) % word }) k

unfoldable pub pthread_mutex_lock_sys : ℕ → Ptr → Kernel → Outcome ℕ
unfolding raise_priority suspend_thread
pthread_mutex_lock_sys zero m k = stuck
pthread_mutex_lock_sys (suc fuel) m k =
    let mutex = k.mutexes m in
    let t = k.current_thread in
    if mutex.owner == null
    then raise_priority m (set_mutex m (record mutex { owner = t; counter = 1 }) k)
    else if mutex.owner == t && mutex.type == pthread_mutex_errorcheck
    then fail edeadlk k
    else if mutex.owner == t && mutex.type == pthread_mutex_recursive
    then done success (count_lock m k)
    else and_then (scheduling (wait_on_mutex m t (suspend_thread t k)))
        (λ _ k1. pthread_mutex_lock_sys fuel m k1)

unfoldable pub pthread_mutex_trylock_sys : Ptr → Kernel → Outcome ℕ
unfolding raise_priority
pthread_mutex_trylock_sys m k =
    let mutex = k.mutexes m in
    let t = k.current_thread in
    if not (mutex.owner == null)
    then if mutex.owner == t && mutex.type == pthread_mutex_recursive
      then done success (count_lock m k)
      else fail ebusy k
    else raise_priority m (set_mutex m (record mutex { owner = t }) k)

-- `mutex_list = NULL; owner = NULL; counter = 0`, and the priority of the caller as it was.
unfoldable pub release : Ptr → Kernel → Outcome ℕ
release m k =
    let mutex = k.mutexes m in
    let k1 = set_mutex m (record mutex { mutex_list = null; owner = null; counter = 0 }) k in
    if mutex.prio_protection == pthread_prio_protect
      && not (mutex.owner_prio == (current k1).sched_priority)
    then and_then (scheduling (change_thread_prio k1.current_thread mutex.owner_prio k1))
        (λ _ k2. done success k2)
    else done success k1

-- `mutex -> counter --` of a recursive mutex.
abbrev pub uncount_lock : Ptr → Kernel → Kernel
uncount_lock m k =
    let mutex = k.mutexes m in
    if mutex.type == pthread_mutex_recursive
    then set_mutex m (record mutex { counter = (mutex.counter + word - 1) % word }) k
    else k

-- `mutex -> counter > 0` of a recursive mutex.
abbrev pub still_locked : Ptr → Kernel → Bool
still_locked m k = (k.mutexes m).type == pthread_mutex_recursive && int_ltb 0 (k.mutexes m).counter

-- The waiting threads activated, and the mutex released.
unfoldable pub wake_and_release : ℕ → Ptr → Kernel → Outcome ℕ
unfolding wake_all release
wake_and_release fuel m k = elim (wake_all fuel (k.mutexes m).mutex_list k.mutex_links k) [
  | none ↦ stuck
  | some woken ↦ release m (
      set_mutex m (record (woken.result.mutexes m) { mutex_list = woken.head })
        (record woken.result { mutex_links = woken.links }))
]

unfoldable pub pthread_mutex_unlock_sys : ℕ → Ptr → Kernel → Outcome ℕ
unfolding wake_and_release
pthread_mutex_unlock_sys fuel m k =
    let mutex = k.mutexes m in
    if not (mutex.owner == null)
    then if not (mutex.owner == k.current_thread)
      then fail eperm k
      else if still_locked m (uncount_lock m k)
      then done success (uncount_lock m k)
      else wake_and_release fuel m (uncount_lock m k)
    else if mutex.type == pthread_mutex_errorcheck
    then fail eperm k
    else done success k

unfoldable pub pthread_mutex_destroy_sys : Ptr → Kernel → Outcome ℕ
pthread_mutex_destroy_sys m k = done success k

unfoldable pub pthread_mutex_timedlock_sys : Ptr → Kernel → Outcome ℕ
pthread_mutex_timedlock_sys m k = done success k
