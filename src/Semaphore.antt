-- ===== src/Semaphore.antt =====
-- server/core/port/semaphore.c. A semaphore is its address; `value` is an int, kept as a word, whose
-- upper half are the negative values.
pub mod Laws
use l4ertl.Kernel.{
  set_errno, eagain, ebusy, enosys, einval, failure, erange, fail, success, done, and_then, Outcome,
  Sem, Kernel,
}
use l4ertl.Sched.{scheduling, activate_thread, suspend_thread}
use l4ertl.Base.{
  int_ltb, some, none, null, not, ◌==◌, ◌%◌, word, Option, if◌then◌else◌, ◌+◌, ◌-◌, update, ltb,
  ◌^◌, Bool, Ptr, ℕ,
}
use l4ertl.ThreadList.{insert_pthread_list, remove_head_pthread_list}
use Prim.Native.Nat.{ℕ}

abbrev pub sem_value_max : ℕ
sem_value_max = 2 ^ 31 - 1

abbrev pub set_sem : Ptr → Sem → Kernel → Kernel
set_sem s v k = record k { sems = update k.sems s v }

-- `sem -> value = v`
abbrev pub set_value : Ptr → ℕ → Kernel → Kernel
set_value s v k = set_sem s (record (k.sems s) { value = v }) k

-- `sem -> value = sem -> value - 1`
abbrev pub take_one : Ptr → Kernel → Kernel
take_one s k = set_value s (((k.sems s).value + word - 1) % word) k

-- insert_pthread_list (&sem -> sem_list, &t -> sem_list)
abbrev pub wait_on_sem : Ptr → Ptr → Kernel → Kernel
wait_on_sem s t k =
    let listed = insert_pthread_list (k.sems s).sem_list t k.sem_links in
    set_sem s (record (k.sems s) { sem_list = listed.head }) (record k { sem_links = listed.links })

-- What remove_head_pthread_list (&sem -> sem_list) leaves.
abbrev pub pop_waiter : Ptr → Kernel → Kernel
pop_waiter s k =
    let listed = remove_head_pthread_list (k.sems s).sem_list k.sem_links in
    set_sem s (record (k.sems s) { sem_list = listed.head }) (record k { sem_links = listed.links })

unfoldable pub sem_init_sys : Ptr → ℕ → ℕ → Kernel → Outcome ℕ
sem_init_sys s pshared value k =
    if not (pshared == 0)
    then fail enosys k
    else if not (s == null)
    then done success (set_sem s (record { value = value % word; sem_list = null }) k)
    else fail einval k

unfoldable pub sem_destroy_sys : Ptr → Kernel → Outcome ℕ
sem_destroy_sys s k =
    if s == null
    then fail einval k
    else if not ((k.sems s).sem_list == null)
    then fail ebusy k
    else done success k

-- What is returned, and what is stored in `*sval`, if anything.
unfoldable pub sem_getvalue_sys : Ptr → Kernel → Outcome (ℕ × Option ℕ)
sem_getvalue_sys s k =
    if s == null
    then done (failure, none) (set_errno einval k)
    else done (success, some (k.sems s).value) k

unfoldable pub sem_wait_sys : Ptr → Kernel → Outcome ℕ
unfolding suspend_thread scheduling and_then
sem_wait_sys s k =
    if s == null
    then fail einval k
    else if (k.sems s).value == 0
    then and_then (scheduling (wait_on_sem s k.current_thread (suspend_thread k.current_thread k)))
        (λ _ k1. done success (take_one s k1))
    else done success (take_one s k)

unfoldable pub sem_trywait_sys : Ptr → Kernel → Outcome ℕ
sem_trywait_sys s k =
    if s == null
    then fail einval k
    else if (k.sems s).value == 0
    then fail eagain k
    else done success (take_one s k)

-- The last part of `sem_post_sys`.
unfoldable pub give_one : Ptr → Kernel → Outcome ℕ
give_one s k =
    if int_ltb (k.sems s).value sem_value_max
    then done success (set_value s (((k.sems s).value + 1) % word) k)
    else fail erange k

unfoldable pub sem_post_sys : Ptr → Kernel → Outcome ℕ
unfolding activate_thread scheduling and_then give_one
sem_post_sys s k =
    if s == null
    then fail einval k
    else if (k.sems s).value == 0
    then (let thread = (remove_head_pthread_list (k.sems s).sem_list k.sem_links).result in
        let k1 = pop_waiter s k in
        if thread == null
        then give_one s k1
        else and_then (scheduling (activate_thread thread k1)) (λ _ k2. give_one s k2))
    else give_one s k
