-- ===== src/Sched/Invariant.antt =====
-- The invariant of the scheduler, and that every operation of sched.c keeps it.
use l4ertl.Flags.{suspended_thread, finished_thread, ready_thread}
use l4ertl.Base.{
  ==_refl, ◌||◌, if◌then◌else◌, ◌==◌, subst, arith, null, inr, true, inl, ◌%◌, Bool-cases, ◌≡◌, ◌≢◌,
  Ptr, ℕ,
}
use l4ertl.Kernel.{Kernel}
use l4ertl.Chain.{has}
use l4ertl.Chain.Laws.{has-erase_self, has-erase_ne, has_of-has-erase}
use l4ertl.Flags.State.{get-set_thread_state}
use l4ertl.Ready.{prio2ij, remove_ss}
use l4ertl.Ready.Insert.{insert_ss-IsReady}
use l4ertl.Ready.Remove.{remove_ss-IsReady}
use l4ertl.Ready.Queues.{Queues, IsReady, Absent, push_front, drop}
use l4ertl.Sched.{
  insert_active, remove_active, set_state, ready_thread, Kernel, ℕ, state_of, change_thread_prio,
  suspend_thread, activate_thread, finish_thread,
}

-- PTHREAD_MAGIC_NUMBER
abbrev pub pthread_magic_number : ℕ
pthread_magic_number = 0xa5a5_5a5a

abbrev pub IsAlive : Kernel → Ptr → Type 0
IsAlive k t = (k.threads t).magic_number ≡ pthread_magic_number

abbrev pub row_of : Kernel → Ptr → ℕ
row_of k t = (prio2ij (k.threads t).sched_priority).0

abbrev pub column_of : Kernel → Ptr → ℕ
column_of k t = (prio2ij (k.threads t).sched_priority).1

-- The ready structure holds the queues, and a thread is in a queue exactly when it is ready, and then
-- in that of its priority.
pub record IsKernel (k : Kernel) (q : Queues) : Type 0 where
  pub ready : IsReady k.active_threads q
  pub members :
      (t : Ptr) (i j : ℕ)
      → has t (q i j) ≡ true
      → IsAlive k t × (state_of k t ≡ ready_thread) × (row_of k t ≡ i) × (column_of k t ≡ j)
  pub waiting :
      (t : Ptr)
      → IsAlive k t
      → state_of k t ≡ ready_thread
      → has t (q (row_of k t) (column_of k t)) ≡ true
  pub null_free : ¬ IsAlive k null

module _ (k : Kernel) (q : Queues) (v : IsKernel k q) (t : Ptr) where
  -- A thread that has been taken out is in no queue.
  pub drop-Absent : Absent t (drop t q)
  drop-Absent i j = elim (Bool-cases (has t (drop t q i j))) [
    | inl here ↦
        let (hi, hj, ei, ej) = v.ready.home t i j (has_of-has-erase t t (q i j) here) in
        absurd (
          ground (
            arith,
            has-erase_self _ _ null (k.active_threads.thread_matrix i j) t (q i j)
                (v.ready.chain i j hi hj),
          ))
    | inr gone ↦ gone
  ]

  -- A thread that is not ready is in no queue.
  idle-Absent : state_of k t ≢ ready_thread → Absent t q
  idle-Absent ne i j = elim (Bool-cases (has t (q i j))) [
    | inl here ↦ absurd (ne (v.members t i j here).1)
    | inr gone ↦ gone
  ]

  -- Taking the thread out, and leaving it in a state that is not ready.
  dropped :
      (state : ℕ)
      → state % 8 ≢ ready_thread
      → IsKernel (set_state t state (remove_active t k)) (drop t q)
  dropped state ne = record {
    ready = remove_ss-IsReady k.active_threads q t v.ready;
    members =
        λ x i j h. ground (arith, drop-Absent i j, v.members x i j, has_of-has-erase x t (q i j) h);
    waiting = λ x alive r. ground (
      arith,
      get-set_thread_state (k.threads t).thread_flags state,
      v.waiting x,
      has-erase_ne x t (q (row_of k x) (column_of k x)),
    );
    null_free = λ h. v.null_free (ground arith);
  }

module _ (k : Kernel) (q : Queues) (v : IsKernel k q) (t : Ptr) where
  pub alive-ne-null : IsAlive k t → t ≢ null
  alive-ne-null alive e = v.null_free (subst (IsAlive k) e alive)

  -- Putting an absent thread in its queue and making it ready.
  entered :
      IsAlive k t
      → Absent t q
      → IsKernel
          (set_state t ready_thread (insert_active t k))
          (push_front t (row_of k t) (column_of k t) q)
  entered alive absent = record {
    ready =
        insert_ss-IsReady k.active_threads q t (k.threads t).sched_priority v.ready
          (alive-ne-null alive) absent;
    members = λ x i j h. ground (
      arith,
      alive,
      absent i j,
      v.members x i j,
      get-set_thread_state (k.threads t).thread_flags ready_thread,
    );
    waiting = λ x a r. ground (arith, v.waiting x);
    null_free = λ h. v.null_free (ground arith);
  }

  -- Taking out a thread that is not ready changes no queue it matters to.
  removed : state_of k t ≢ ready_thread → IsKernel (remove_active t k) (drop t q)
  removed ne = record {
    ready = remove_ss-IsReady k.active_threads q t v.ready;
    members = λ x i j h. v.members x i j (has_of-has-erase x t (q i j) h);
    waiting =
        λ x alive r. ground (arith, v.waiting x, has-erase_ne x t (q (row_of k x) (column_of k x)));
    null_free = v.null_free;
  }

-- The queues after `activate_thread`.
abbrev pub activated : Kernel → Ptr → Queues → Queues
activated k t q =
    if state_of k t == finished_thread || state_of k t == ready_thread
    then q
    else push_front t (row_of k t) (column_of k t) q

-- The queues after `change_thread_prio`.
abbrev pub moved : Kernel → Ptr → ℕ → Queues → Queues
moved k t prio q =
    if state_of k t == ready_thread
    then push_front t (prio2ij prio).0 (prio2ij prio).1 (drop t q)
    else drop t q

-- From a kernel whose structure holds the queues, `suspend_thread` leads to one whose structure holds
-- the queues less the thread.
pub suspend_thread-IsKernel :
    (k : Kernel) (q : Queues) (t : Ptr) → IsKernel k q → IsKernel (suspend_thread t k) (drop t q)
unfolding suspend_thread
suspend_thread-IsKernel k q t v = elim (Bool-cases (state_of k t == finished_thread)) [
  | inl finished ↦ rw finished (removed k q v t (ground arith))
  | inr not_finished ↦ rw not_finished (dropped k q v t suspended_thread (ground arith))
]

-- From a kernel whose structure holds the queues, `finish_thread` leads to one whose structure holds
-- the queues less the thread.
pub finish_thread-IsKernel :
    (k : Kernel) (q : Queues) (t : Ptr) → IsKernel k q → IsKernel (finish_thread t k) (drop t q)
unfolding finish_thread
finish_thread-IsKernel k q t v = dropped k q v t finished_thread (ground arith)

-- From a kernel whose structure holds the queues, `activate_thread` of a living thread leads to one
-- with the thread in front of the queue of its priority, or, if it was ready or has finished, to
-- one with the same queues.
pub activate_thread-IsKernel :
    (k : Kernel) (q : Queues) (t : Ptr)
    → IsKernel k q
    → IsAlive k t
    → IsKernel (activate_thread t k) (activated k t q)
unfolding activate_thread
activate_thread-IsKernel k q t v alive =
    elim (Bool-cases (state_of k t == finished_thread || state_of k t == ready_thread)) [
      | inl same ↦ rw same v
      | inr idle ↦ rw idle (entered k q v t alive (idle-Absent k q v t (ground (arith, idle))))
    ]

-- From a kernel whose structure holds the queues, `change_thread_prio` of a living thread leads to one
-- with a ready thread in front of the queue of its new priority and in no other, and a thread that is
-- not ready in none.
pub change_thread_prio-IsKernel :
    (k : Kernel) (q : Queues) (t : Ptr) (prio : ℕ)
    → IsKernel k q
    → IsAlive k t
    → IsKernel (change_thread_prio t prio k) (moved k t prio q)
unfolding change_thread_prio
change_thread_prio-IsKernel k q t prio v alive = elim (Bool-cases (state_of k t == ready_thread)) [
  | inl is_ready ↦ rw is_ready record {
    ready = rw (==_refl t) (
        insert_ss-IsReady (remove_ss t k.active_threads) (drop t q) t prio
          (remove_ss-IsReady k.active_threads q t v.ready) (alive-ne-null k q v t alive)
          (drop-Absent k q v t));
    members = λ x i j h. ground (
      arith,
      alive,
      is_ready,
      drop-Absent k q v t i j,
      v.members x i j,
      has_of-has-erase x t (q i j),
    );
    waiting =
        λ x a r. ground (arith, v.waiting x, has-erase_ne x t (q (row_of k x) (column_of k x)));
    null_free = λ h. v.null_free (ground arith);
  }
  | inr not_ready ↦ rw not_ready record {
    ready = remove_ss-IsReady k.active_threads q t v.ready;
    members = λ x i j h.
        ground (arith, drop-Absent k q v t i j, v.members x i j, has_of-has-erase x t (q i j));
    waiting = λ x a r.
        ground (arith, not_ready, v.waiting x, has-erase_ne x t (q (row_of k x) (column_of k x)));
    null_free = λ h. v.null_free (ground arith);
  }
]
