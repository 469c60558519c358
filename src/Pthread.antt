-- ===== src/Pthread.antt =====
-- The attributes of a thread, in server/core/port/pthread.c: detaching, cancellation, scheduling
-- parameters, exit. An out-parameter is what is stored in it, `none` for NULL.
pub mod Laws
use l4ertl.Signal.{cancel_signal, pthread_kill_sys}
use l4ertl.Sched.Invariant.{pthread_magic_number}
use l4ertl.Kernel.{
  and_then, set_current, set_errno, einval, failure, success, esrch, fail, done, current,
  set_thread, Outcome, Kernel,
}
use l4ertl.Sched.{change_thread_prio, scheduling, activate_thread}
use l4ertl.Base.{
  true, word, ◌%◌, some, ◌+◌, false, none, not, ◌||◌, null, if◌then◌else◌, ◌==◌, Option, ℕ, Bool,
  Ptr,
}
use l4ertl.Flags.{
  get_thread_detach_state, set_thread_detach_state, set_thread_cancel_state, set_thread_cancel_type,
  set_thread_policy, get_thread_cancel_state, get_thread_policy, get_thread_cancel_type,
}

-- `!thread || thread -> magic_number != PTHREAD_MAGIC_NUMBER`
abbrev pub no_thread : Ptr → Kernel → Bool
no_thread t k = t == null || not ((k.threads t).magic_number == pthread_magic_number)

unfoldable pub pthread_self_sys : Kernel → Ptr
pthread_self_sys k = k.current_thread

-- Writing the flags of a thread.
abbrev pub set_flags : Ptr → ℕ → Kernel → Kernel
set_flags t flags k = set_thread t (record (k.threads t) { thread_flags = flags }) k

unfoldable pub pthread_detach_sys : Ptr → Kernel → Outcome ℕ
unfolding activate_thread scheduling set_thread_detach_state get_thread_detach_state
pthread_detach_sys t k =
    if no_thread t k
    then fail esrch k
    else if not (get_thread_detach_state (k.threads t).thread_flags == 0)
    then fail einval k
    else (let k1 = set_flags t (set_thread_detach_state (k.threads t).thread_flags 1) k in
        let k2 = activate_thread (current k1).joining_thread k1 in
        let k3 = set_current (record (current k2) { joining_thread = null }) k2 in
        and_then (scheduling k3) (λ _ k4. done success k4))

unfoldable pub pthread_cancel_sys : Ptr → Kernel → Outcome ℕ
unfolding pthread_kill_sys
pthread_cancel_sys t k =
    if no_thread t k
    then fail esrch k
    else and_then (pthread_kill_sys t cancel_signal k) (λ _ k1. done success k1)

unfoldable pub pthread_setcancelstate_sys : ℕ → Kernel → Outcome (ℕ × ℕ)
unfolding get_thread_cancel_state set_thread_cancel_state
pthread_setcancelstate_sys state k =
    let flags = (current k).thread_flags in
    done (success, (if get_thread_cancel_state flags == 0 then 0 else 1))
      (set_flags k.current_thread
        (if state == 1 then set_thread_cancel_state flags 1 else set_thread_cancel_state flags 0) k)

unfoldable pub pthread_setcanceltype_sys : ℕ → Kernel → Outcome (ℕ × ℕ)
unfolding get_thread_cancel_type set_thread_cancel_type
pthread_setcanceltype_sys type k =
    let flags = (current k).thread_flags in
    done (success, (if get_thread_cancel_type flags == 0 then 0 else 1))
      (set_flags k.current_thread
        (if type == 1 then set_thread_cancel_type flags 1 else set_thread_cancel_type flags 0) k)

-- What is returned, the policy and the parameters.
unfoldable pub pthread_getschedparam_sys : Ptr → Kernel → Outcome (ℕ × Option (ℕ × ℕ))
unfolding get_thread_policy
pthread_getschedparam_sys t k =
    if no_thread t k
    then done (failure, none) (set_errno esrch k)
    else done
        (success, some (get_thread_policy (k.threads t).thread_flags, (k.threads t).sched_priority))
        k

-- `param` is the priority that it points to, `none` for NULL.
unfoldable pub pthread_setschedparam_sys : Ptr → ℕ → Option ℕ → Kernel → Outcome ℕ
unfolding set_thread_policy change_thread_prio scheduling
pthread_setschedparam_sys t policy param k =
    if no_thread t k
    then fail esrch k
    else (let k1 = set_flags t (set_thread_policy (k.threads t).thread_flags policy) k in
        elim param [
          | none ↦ fail einval k1
          | some prio ↦
              let k2 = set_thread t (record (k1.threads t) { sched_priority = prio }) k1 in
              and_then (scheduling (change_thread_prio t (k2.threads t).sched_priority k2))
                (λ _ k3. done success k3)
        ])

-- `init_routine` is code outside the kernel: what is returned is whether it is called, and the new
-- `once_control -> init`.
unfoldable pub pthread_once_sys : Ptr → Ptr → ℕ → Kernel → Outcome (ℕ × Bool × ℕ)
pthread_once_sys once_control init_routine init k =
    if once_control == null || init_routine == null
    then done (failure, false, init) (set_errno einval k)
    else (let next = (init + 1) % word in
        done (success, (if not (next == 0) then false else true), next) k)
