-- ===== src/User/ThreadAttr.antt =====
-- The attributes of threads in server/ulibc/pthread.c, and the priorities of server/ulibc/sched.c. A
-- program gives the calls the address of its attributes and, to those that read, where to store.
pub mod Laws
use l4ertl.Base.{ℕ, Ptr, null, ◌==◌, not, if◌then◌else◌, ◌*◌}
use l4ertl.Kernel.{success, failure}
use l4ertl.User.{Objects, Reply, refuse_null, write_object, read_object}

-- struct sched_param
pub record SchedParam : Type 0 where
  pub policy : ℕ
  pub sched_priority : ℕ
  pub deadline : ℕ
  pub period : ℕ

-- pthread_attr_t
pub record ThreadAttr : Type 0 where
  pub stack_size : ℕ
  pub stack_addr : Ptr
  pub policy : ℕ
  pub sched_param : SchedParam
  pub detachstate : ℕ

abbrev pub default_stack_size : ℕ
default_stack_size = 16 * 1024

abbrev pub sched_fifo : ℕ
sched_fifo = 0

unfoldable pub sched_get_priority_max : ℕ → ℕ
sched_get_priority_max policy = if policy == sched_fifo then 0 else failure

unfoldable pub sched_get_priority_min : ℕ → ℕ
sched_get_priority_min policy = if policy == sched_fifo then 1022 else failure

abbrev pub AttrReply : Type 0
AttrReply = Reply ThreadAttr ℕ

unfoldable pub pthread_attr_init : Ptr → Objects ThreadAttr → AttrReply
unfolding sched_get_priority_min
pthread_attr_init attr = write_object attr (λ a. record {
  stack_size = default_stack_size;
  stack_addr = null;
  policy = 0;
  sched_param = record {
    policy = 0;
    sched_priority = sched_get_priority_min sched_fifo;
    deadline = 0;
    period = 0;
  };
  detachstate = 0;
})

unfoldable pub pthread_attr_setstacksize : Ptr → ℕ → Objects ThreadAttr → AttrReply
pthread_attr_setstacksize attr stacksize =
    write_object attr (λ a. record a { stack_size = stacksize })

unfoldable pub pthread_attr_getstacksize : Ptr → Ptr → Objects ThreadAttr → AttrReply
pthread_attr_getstacksize attr out = read_object attr out (λ a. a.stack_size)

unfoldable pub pthread_attr_setstackaddr : Ptr → Ptr → Objects ThreadAttr → AttrReply
pthread_attr_setstackaddr attr stackaddr =
    write_object attr (λ a. record a { stack_addr = stackaddr })

unfoldable pub pthread_attr_getstackaddr : Ptr → Ptr → Objects ThreadAttr → AttrReply
pthread_attr_getstackaddr attr out = read_object attr out (λ a. a.stack_addr)

abbrev pub pthread_create_detached : ℕ
pthread_create_detached = 1

abbrev pub pthread_create_joinable : ℕ
pthread_create_joinable = 0

unfoldable pub pthread_attr_setdetachstate : Ptr → ℕ → Objects ThreadAttr → AttrReply
pthread_attr_setdetachstate attr detachstate =
    write_object attr
      (λ a. record a { detachstate = if detachstate == pthread_create_detached then 1 else 0 })

unfoldable pub pthread_attr_getdetachstate : Ptr → Ptr → Objects ThreadAttr → AttrReply
pthread_attr_getdetachstate attr out =
    read_object attr out
      (λ a. if not (a.detachstate == 0) then pthread_create_detached else pthread_create_joinable)

unfoldable pub pthread_attr_setschedpolicy : Ptr → ℕ → Objects ThreadAttr → AttrReply
pthread_attr_setschedpolicy attr policy = write_object attr (λ a. record a { policy = policy })

unfoldable pub pthread_attr_getschedpolicy : Ptr → Ptr → Objects ThreadAttr → AttrReply
pthread_attr_getschedpolicy attr out = read_object attr out (λ a. a.policy)

-- `param` is where the new parameters stand, and `values` what stands there.
unfoldable pub pthread_attr_setschedparam : Ptr → Ptr → SchedParam → Objects ThreadAttr → AttrReply
pthread_attr_setschedparam attr param values o =
    if param == null
    then refuse_null o
    else write_object attr (λ a. record a { sched_param = values }) o

unfoldable pub pthread_attr_getschedparam :
    Ptr → Ptr → Objects ThreadAttr → Reply ThreadAttr SchedParam
pthread_attr_getschedparam attr out = read_object attr out (λ a. a.sched_param)
