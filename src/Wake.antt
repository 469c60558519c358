-- ===== src/Wake.antt =====
-- The loop of server/core/port/pthread.c that activates every thread of a list:
-- `while ((thread = remove_head_pthread_list (h))) activate_thread (thread);`
-- It stands in pthread_mutex_unlock_sys and in pthread_cond_broadcast_sys.
pub mod Laws
use l4ertl.Kernel.{Kernel, Links}
use l4ertl.Base.{zero, suc, some, null, ◌==◌, if◌then◌else◌, none, Option, Ptr, ℕ}
use Prim.Native.Nat.{suc, ℕ}
use l4ertl.Sched.{activate_thread}
use l4ertl.ThreadList.{Listed, remove_head_pthread_list}

-- `none` if the fuel runs out before the list is empty.
unfoldable pub wake_all : ℕ → Ptr → Links → Kernel → Option (Listed Kernel)
unfolding remove_head_pthread_list activate_thread
wake_all zero h l k = none
wake_all (suc fuel) h l k =
    let r = remove_head_pthread_list h l in
    let rest = wake_all fuel r.head r.links (activate_thread r.result k) in
    if r.result == null then some (record { head = r.head; links = r.links; result = k }) else rest
