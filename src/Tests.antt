-- ===== src/Tests.antt =====
-- Concrete kernels, at which the theorems of this library are applied.
pub mod ReadyTests
pub mod SchedTests
pub mod ObjectTests
pub mod ThreadTests
pub mod SignalTests
pub mod TableTests
pub mod TimeTests
pub mod CodeTests
pub mod SystemTests
pub mod UserTests
pub mod LeaveTests
use l4ertl.Bits.{test_bit-zero}
use l4ertl.Ready.Insert.{insert_ss-IsReady}
use l4ertl.Sched.{activate_thread}
use l4ertl.Flags.{get_thread_state}
use l4ertl.Base.{
  ◌||◌, inl, ◌∷◌, ◌==◌, inr, refl, null, ◌+◌, arith, if◌then◌else◌, Bool-cases, [], List, Ptr,
}
use l4ertl.ThreadList.Lists.{IsLists}
use l4ertl.Sched.Invariant.{
  pthread_magic_number, activate_thread-IsKernel, activated, IsAlive, IsKernel,
}
use l4ertl.Ready.Queues.{push_front, IsReady, Queues}
use l4ertl.Ready.{Ready, prio2ij, insert_ss}
use l4ertl.Kernel.{action_wakeup, read_monotonic_timer, Thread, Links, Kernel}

-- No thread is in the structure.
abbrev pub no_ready : Ready
no_ready = record {
  next_matrix = λ t. null;
  prev_matrix = λ t. null;
  ss_i = λ t. 0;
  ss_j = λ t. 0;
  thread_matrix = λ i j. null;
  flbitmap = 0;
  slbitmap = λ i. 0;
}

abbrev pub no_queues : Queues
no_queues i j = []

pub no_ready-IsReady : IsReady no_ready no_queues
no_ready-IsReady = record {
  chain = λ i j hi hj. refl;
  home = λ t i j h. ground arith;
  loose = λ t h. inr (refl, refl, omega arith, omega arith);
  column_bits = λ i j hi hj. test_bit-zero j;
  row_bits = λ i hi. test_bit-zero i;
  columns_small = λ i hi. omega arith;
  rows_small = omega arith;
}

-- Thread 7 at priority 40.
abbrev pub one_ready : Ready
unfolding insert_ss
one_ready = insert_ss 7 40 no_ready

abbrev pub one_queue : Queues
unfolding prio2ij
one_queue = push_front 7 (prio2ij 40).0 (prio2ij 40).1 no_queues

pub one_ready-IsReady : IsReady one_ready one_queue
unfolding one_ready one_queue
one_ready-IsReady =
    insert_ss-IsReady no_ready no_queues 7 40 no_ready-IsReady (ground arith) (λ i j. refl)

-- Threads 1 to 3 live, and are suspended.
abbrev pub some_thread : Ptr → Thread
some_thread t = record {
  thread_flags = 1;
  sched_priority = 5;
  magic_number = if t == 1 || t == 2 || t == 3 then pthread_magic_number else 0;
  errno = 0;
  exit_value = 0;
  joining_thread = null;
  used_time = 0;
  starting_time = 10;
  sigpending = 0;
  sigmask = 0;
  sleep_ktimer = t;
  cleanup_routine_table = λ i. record { routine = null; arg = null };
  top_cr_table = 0;
  tsd = λ i. null;
}

abbrev pub no_links : Links
no_links = record { prev = λ t. null; next = λ t. null }

-- On the object 100 the thread 2 waits.
abbrev pub some_head : Ptr → Ptr
some_head o = if o == 100 then 2 else null

abbrev pub some_waiters : Ptr → List Ptr
some_waiters o = if o == 100 then 2 ∷ [] else []

pub some_waiters-IsLists : IsLists no_links some_head some_waiters
some_waiters-IsLists = record {
  chain = λ o. elim (Bool-cases (o == 100)) [
    | inl e ↦ rw e (refl, ground arith, refl, refl, refl)
    | inr e ↦ rw e refl
  ];
  one = λ t o o' h h'. ground arith;
  loose = λ t h. (refl, refl);
}

abbrev pub some_kernel : Kernel
some_kernel = record {
  threads = some_thread;
  current_thread = 1;
  idle_thread = 3;
  active_threads = no_ready;
  irq_nesting_counter = 0;
  clock = λ n. 100 + n;
  readings = 0;
  sem_links = no_links;
  cond_links = no_links;
  mutex_links = no_links;
  sems = λ o. record { value = if o == 100 then 0 else 3; sem_list = some_head o };
  mutexes = λ o. record {
    magic_number = 0;
    counter = 1;
    prio_protection = 0;
    prio = 0;
    type = if o == 100 then 0 else 1;
    owner_prio = 0;
    owner = 1;
    mutex_list = some_head o;
  };
  conds = some_head;
  keys = λ n. record { in_use = if n == 0 then 1 else 0; destructor = null };
  realtime = λ n. 5000 + n;
  timers = λ p. record {
    owner = p;
    timer_value = 0;
    timer_interval = 0;
    flags = if p == 1 || p == 2 || p == 3 then 0x100 else 0;
    read_clock = read_monotonic_timer;
    action = action_wakeup;
    signo = 8;
  };
  timer_heap = record { array = λ i. null; nelem = 0 };
  hwtimer = record { min_interval = 10; max_interval = 1000; interval = 0 };
  thread_list = null;
  thread_links = no_links;
}

pub some_kernel-IsKernel : IsKernel some_kernel no_queues
unfolding get_thread_state
some_kernel-IsKernel = record {
  ready = no_ready-IsReady;
  members = λ t i j h. ground arith;
  waiting = λ t a e. ground arith;
  null_free = ground arith;
}

-- Thread 1 activated.
abbrev pub running : Kernel
unfolding activate_thread
running = activate_thread 1 some_kernel

abbrev pub running_queues : Queues
unfolding get_thread_state
running_queues = activated some_kernel 1 no_queues

pub IsAlive-1 : IsAlive some_kernel 1
IsAlive-1 = refl

pub running-IsKernel : IsKernel running running_queues
unfolding running running_queues
running-IsKernel = activate_thread-IsKernel some_kernel no_queues 1 some_kernel-IsKernel IsAlive-1
