-- ===== src/Kernel.antt =====
-- The state of the kernel that the system calls share: the threads (struct pthread_struct of
-- include/ertl_core/types.h), the objects they wait on, the ready structure and the counters of
-- sched.c and irqs.c; and how a call ends, when `context_switch_to` may run other threads in
-- between. Interrupts are off while a call runs, except across a context switch.
use l4ertl.Base.{◌-◌, update, word, ℕ, Ptr}
use Prim.Native.Nat.{ℕ}
use l4ertl.Ready.{Ready}
use l4ertl.Chain.{Field}

-- struct cleanup_routine, functions and data as addresses.
pub record CleanupRoutine : Type 0 where
  pub routine : Ptr
  pub arg : Ptr

pub record Thread : Type 0 where
  pub thread_flags : ℕ
  pub sched_priority : ℕ
  pub magic_number : ℕ
  pub errno : ℕ
  pub exit_value : ℕ
  pub joining_thread : Ptr
  pub used_time : ℕ
  pub starting_time : ℕ
  pub sigpending : ℕ
  pub sigmask : ℕ
  pub sleep_ktimer : Ptr
  pub cleanup_routine_table : ℕ → CleanupRoutine
  pub top_cr_table : ℕ
  pub tsd : ℕ → Ptr

-- pthread_list_t of every thread: the two links, with the thread's address for the node's.
pub record Links : Type 0 where
  pub prev : Field
  pub next : Field

-- sem_t
pub record Sem : Type 0 where
  pub value : ℕ
  pub sem_list : Ptr

-- pthread_mutex_t with its attributes
pub record Mutex : Type 0 where
  pub magic_number : ℕ
  pub counter : ℕ
  pub prio_protection : ℕ
  pub prio : ℕ
  pub type : ℕ
  pub owner_prio : ℕ
  pub owner : Ptr
  pub mutex_list : Ptr

-- struct common_key_struct
pub record Key : Type 0 where
  pub in_use : ℕ
  pub destructor : Ptr

-- The functions that a timer's field `read_clock` points to, NULL if the timer is zeroed.
pub data ReadClock : Type 0 where
  read_monotonic_timer read_realtime_timer read_thread_cputime_timer no_clock : ReadClock

-- The functions that a timer's field `action` points to.
pub data Action : Type 0 where
  action_wakeup action_kill no_action : Action

-- ktimer_t; `signo` is its field sigevent.sigev_signo, the only one of the event that is read.
pub record KTimer : Type 0 where
  pub owner : Ptr
  pub timer_value : ℕ
  pub timer_interval : ℕ
  pub flags : ℕ
  pub read_clock : ReadClock
  pub action : Action
  pub signo : ℕ

-- hwtimer_t: the bounds that it reports, and the interval that it was last set to.
pub record HwTimer : Type 0 where
  pub min_interval : ℕ
  pub max_interval : ℕ
  pub interval : ℕ

-- heap_t: the elements stand at 1 to `nelem`. The places 0 to HEAP_MAX_NELEM - 1 of `array` are the
-- array of the source; the word behind them is `nelem`, and no place of the model from HEAP_MAX_NELEM
-- on belongs to the structure.
pub record TimerHeap : Type 0 where
  pub array : ℕ → Ptr
  pub nelem : ℕ

-- `clock` and `realtime` are what `monotonic_clock->gettime_nsec ()` and the same of the realtime clock
-- return at each reading; `readings` counts the readings of both. `timers` is timer_array, by the
-- address of its elements, which is one more than their index.
pub record Kernel : Type 0 where
  pub threads : Ptr → Thread
  pub current_thread : Ptr
  pub idle_thread : Ptr
  pub active_threads : Ready
  pub irq_nesting_counter : ℕ
  pub clock : ℕ → ℕ
  pub readings : ℕ
  pub sem_links : Links
  pub cond_links : Links
  pub mutex_links : Links
  pub sems : Ptr → Sem
  pub mutexes : Ptr → Mutex
  pub conds : Ptr → Ptr
  pub keys : ℕ → Key
  pub realtime : ℕ → ℕ
  pub timers : Ptr → KTimer
  pub timer_heap : TimerHeap
  pub hwtimer : HwTimer
  pub thread_list : Ptr
  pub thread_links : Links

-- Writing one thread.
abbrev pub set_thread : Ptr → Thread → Kernel → Kernel
set_thread t v k = record k { threads = update k.threads t v }

-- The thread that runs.
abbrev pub current : Kernel → Thread
current k = k.threads k.current_thread

abbrev pub set_current : Thread → Kernel → Kernel
set_current v k = set_thread k.current_thread v k

-- `_set_errno_sys` of port/errno.c.
abbrev pub set_errno : ℕ → Kernel → Kernel
set_errno e k = set_current (record (current k) { errno = e }) k

abbrev pub get_errno : Kernel → ℕ
get_errno k = (current k).errno

-- How a call ends: it returns, or the processor goes to another thread, and the rest of the call
-- runs in the state in which the caller is switched back in. `stuck` is fuel that ran out.
pub data Outcome (A : Type 0) : Type 0 where
  done : A → Kernel → Outcome A
  away : Kernel → (Kernel → Outcome A) → Outcome A
  stuck : Outcome A

-- `f` after a call.
unfoldable pub and_then : {A B : Type 0} → Outcome A → (A → Kernel → Outcome B) → Outcome B
and_then (done a k) f = f a k
and_then (away k rest) f = away k (λ k'. and_then (rest k') f)
and_then stuck f = stuck

-- What an int function returns: 0 and -1.
abbrev pub success : ℕ
success = 0

abbrev pub failure : ℕ
failure = word - 1

-- SET_ERRNO (e); return -1
abbrev pub fail : ℕ → Kernel → Outcome ℕ
fail e k = done failure (set_errno e k)

-- The codes of include/ertl_core/errno.h that the calls set.
abbrev pub eperm : ℕ
eperm = 1

abbrev pub esrch : ℕ
esrch = 3

abbrev pub eagain : ℕ
eagain = 11

abbrev pub ebusy : ℕ
ebusy = 16

abbrev pub einval : ℕ
einval = 22

abbrev pub erange : ℕ
erange = 34

abbrev pub edeadlk : ℕ
edeadlk = 35

abbrev pub enosys : ℕ
enosys = 38

abbrev pub eintr : ℕ
eintr = 4

abbrev pub efault : ℕ
efault = 14
