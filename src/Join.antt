-- ===== src/Join.antt =====
-- Waiting for the end of a thread, in server/core/port/pthread.c, and deleting its structure, in
-- server/core/port/sched.c. `release` gives back the stack and the memory of the structure, which the
-- allocator and the code of the processor do. A waiting thread takes one round each time it is switched
-- back in, which no number bounds: `rounds` is fuel.
pub mod Waits
use l4ertl.Pthread.{no_thread}
use l4ertl.ThreadList.{remove_pthread_list}
use l4ertl.Base.{zero, some, none, ◌==◌, suc, not, if◌then◌else◌, Bool, Option, ℕ, Ptr}
use l4ertl.Sched.{state_of, remove_active, scheduling, suspend_thread}
use l4ertl.Flags.{finished_thread, get_thread_detach_state}
use Prim.Native.Nat.{ℕ, suc}
use l4ertl.Kernel.{
  success, einval, esrch, set_errno, failure, done, and_then, stuck, set_thread, Kernel, Outcome,
}

-- remove_pthread_list (&thread_list, &thread -> thread_list)
abbrev pub remove_from_threads : Ptr → Kernel → Kernel
remove_from_threads t k =
    let listed = remove_pthread_list k.thread_list t k.thread_links in
    record k { thread_list = listed.head; thread_links = listed.links }

unfoldable pub delete_pthread_struct : (Ptr → Kernel → Kernel) → Ptr → Kernel → Kernel
delete_pthread_struct release t k = release t (remove_from_threads t (remove_active t k))

abbrev pub is_detached : Ptr → Kernel → Bool
is_detached t k = not (get_thread_detach_state (k.threads t).thread_flags == 0)

-- The thread left to the one that waits for it, which then does not run.
abbrev pub wait_for : Ptr → Kernel → Kernel
wait_for t k =
    suspend_thread k.current_thread
      (set_thread t (record (k.threads t) { joining_thread = k.current_thread }) k)

-- The loop, and what follows it; the second part is what is stored in `*value_ptr` if that is not NULL.
unfoldable pub join_rounds : ℕ → (Ptr → Kernel → Kernel) → Ptr → Kernel → Outcome (ℕ × Option ℕ)
unfolding suspend_thread scheduling get_thread_detach_state delete_pthread_struct
join_rounds zero release t k = stuck
join_rounds (suc rounds) release t k =
    let waiting = and_then (scheduling (wait_for t k)) (λ _ k1.
      if is_detached t k1
      then done (failure, none) (set_errno einval k1)
      else join_rounds rounds release t k1) in
    if state_of k t == finished_thread
    then done (success, some (k.threads t).exit_value) (delete_pthread_struct release t k)
    else waiting

unfoldable pub pthread_join_sys :
    ℕ → (Ptr → Kernel → Kernel) → Ptr → Kernel → Outcome (ℕ × Option ℕ)
unfolding join_rounds get_thread_detach_state
pthread_join_sys rounds release t k =
    if no_thread t k
    then done (failure, none) (set_errno esrch k)
    else if is_detached t k
    then done (failure, none) (set_errno einval k)
    else join_rounds rounds release t k
