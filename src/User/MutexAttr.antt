-- ===== src/User/MutexAttr.antt =====
-- The attributes of mutexes and the priority ceiling of a mutex in server/ulibc/pthread.c.
pub mod Laws
use l4ertl.Base.{ℕ, Ptr, null, Option, some, none, ◌==◌, ◌||◌, not, if◌then◌else◌, update}
use l4ertl.Kernel.{success, failure, einval}
use l4ertl.User.{Objects, Reply, refuse_null, write_object, read_object}
use l4ertl.User.ThreadAttr.{sched_get_priority_max, sched_fifo}

-- pthread_mutexattr_t
pub record MutexAttr : Type 0 where
  pub prio_protection : ℕ
  pub prio : ℕ
  pub type : ℕ
  pub owner_prio : ℕ

abbrev pub MutexAttrReply : Type 0
MutexAttrReply = Reply MutexAttr ℕ

unfoldable pub pthread_mutexattr_init : Ptr → Objects MutexAttr → MutexAttrReply
unfolding sched_get_priority_max
pthread_mutexattr_init attr = write_object attr (λ a. record {
  prio_protection = 2;
  prio = sched_get_priority_max sched_fifo;
  type = 0;
  owner_prio = 0;
})

unfoldable pub pthread_mutexattr_setprotocol : Ptr → ℕ → Objects MutexAttr → MutexAttrReply
pthread_mutexattr_setprotocol attr protocol =
    write_object attr (λ a. record a { prio_protection = protocol })

unfoldable pub pthread_mutexattr_getprotocol : Ptr → Ptr → Objects MutexAttr → MutexAttrReply
pthread_mutexattr_getprotocol attr out = read_object attr out (λ a. a.prio_protection)

unfoldable pub pthread_mutexattr_setprioceiling : Ptr → ℕ → Objects MutexAttr → MutexAttrReply
pthread_mutexattr_setprioceiling attr prioceiling =
    write_object attr (λ a. record a { prio = prioceiling })

unfoldable pub pthread_mutexattr_getprioceiling : Ptr → Ptr → Objects MutexAttr → MutexAttrReply
pthread_mutexattr_getprioceiling attr out = read_object attr out (λ a. a.prio)

unfoldable pub pthread_mutexattr_settype : Ptr → ℕ → Objects MutexAttr → MutexAttrReply
pthread_mutexattr_settype attr type = write_object attr (λ a. record a { type = type })

unfoldable pub pthread_mutexattr_gettype : Ptr → Ptr → Objects MutexAttr → MutexAttrReply
pthread_mutexattr_gettype attr out = read_object attr out (λ a. a.type)
