-- ===== src/Sched/Switch.antt =====
-- The choice of the next thread, and the time a thread is charged.
use l4ertl.Ready.Remove.{remove_ss-IsReady}
use l4ertl.Chain.Laws.{has-erase_ne, has-append, has_of-has-erase}
use l4ertl.Chain.{erase}
use l4ertl.Ready.Tail.{insert_ss_tail-IsReady}
use l4ertl.Flags.{ready_thread}
use l4ertl.Ready.{remove_ss, Ready, get_head_ss}
use l4ertl.Ready.Head.{queue_of, IsHighest, get_head_ss-IsHighest}
use l4ertl.Base.{
  ◌∙◌, ◌%◌, ◌-◌, ◌+◌, ◌^◌, ◌∷◌, List, ◌≤◌, length, Bool-cases, refl, inr, arith, [], false, true,
  ◌==◌, ◌<◌, null, sym, ◌⊎◌, inl, subst, bit_and, ◌≡◌, ℕ, Ptr,
}
use l4ertl.Sched.Invariant.{drop-Absent, alive-ne-null, column_of, row_of, IsAlive, IsKernel}
use l4ertl.Ready.Queues.{drop, push_back, IsReady, Queues}
use l4ertl.Sched.{
  gettime, ready_thread, state_of, get_head_ss, Ptr, new_thread, scheduling, charge_time,
  switched_in, pthread_yield_sys, outside_irqs,
}
use l4ertl.Kernel.{current, and_then, Kernel, Outcome, done, away, stuck}

-- The thread that is to run: the first one of the highest priority that has threads, or the idle
-- thread.
abbrev pub IsNext : Queues → Ptr → Ptr → Type 0
IsNext q idle t =
    ((prio : ℕ) × IsHighest q prio t) ⊎ ((t ≡ idle) × ((p : ℕ) → p < 1024 → queue_of q p ≡ []))

-- What holds of the kernel when the call returns or the processor leaves it; it does one of the two.
abbrev pub StopsIn : {A : Type 0} → (Kernel → Type 0) → Outcome A → Type 0
StopsIn p (done a k) = p k
StopsIn p (away k rest) = p k
StopsIn p stuck = ⊥

-- The queues after the current thread has yielded.
abbrev pub yielded : Kernel → Queues → Queues
yielded k q =
    push_back k.current_thread (row_of k k.current_thread) (column_of k k.current_thread)
      (drop k.current_thread q)

pub new_thread-IsNext :
    (k : Kernel) (q : Queues) → IsReady k.active_threads q → IsNext q k.idle_thread (new_thread k)
unfolding new_thread
new_thread-IsNext k q v = elim (get_head_ss-IsHighest k.active_threads q v) [
  | inl (no_thread, _, empty) ↦
      let test : ((get_head_ss k.active_threads).thread == null) ≡ true = ground arith in
      rw test (inr (refl, empty))
  | inr (real, best) ↦
      let test : ((get_head_ss k.active_threads).thread == null) ≡ false = ground arith in
      rw test (inl ((get_head_ss k.active_threads).priority, best))
]

-- The state that holds the queues, with the counters and the times of the threads written.
pub IsKernel-same :
    (k k' : Kernel) (q : Queues)
    → IsKernel k q
    → k'.active_threads ≡ k.active_threads
    → ((t : Ptr)
        → ((k'.threads t).thread_flags ≡ (k.threads t).thread_flags)
          × ((k'.threads t).sched_priority ≡ (k.threads t).sched_priority)
          × ((k'.threads t).magic_number ≡ (k.threads t).magic_number))
    → IsKernel k' q
unfolding l4ertl.Flags.get_thread_state l4ertl.Ready.prio2ij
IsKernel-same k k' q v active same = record {
  ready = subst (λ r. IsReady r q) (sym active) v.ready;
  members = λ t i j h. rw ((same t).0, (same t).1, (same t).2) (v.members t i j h);
  waiting = λ t. rw ((same t).0, (same t).1, (same t).2) (v.waiting t);
  null_free = rw (same null).2 v.null_free;
}

-- From a kernel whose structure holds the queues, while no interrupt is being served, `scheduling`
-- returns or leaves with the same queues and the current thread that is to run: the first one of the
-- highest priority that has threads, or the idle thread if there is none.
pub scheduling-IsNext :
    (k : Kernel) (q : Queues)
    → IsKernel k q
    → bit_and k.irq_nesting_counter outside_irqs ≡ 0
    → StopsIn (λ k'. IsKernel k' q × IsNext q k'.idle_thread k'.current_thread) (scheduling k)
unfolding scheduling charge_time
scheduling-IsNext k q v e =
    let test : (bit_and k.irq_nesting_counter outside_irqs == 0) ≡ true = ground arith in
    let next : IsNext q k.idle_thread (new_thread k) = new_thread-IsNext k q v.ready in
    rw test (elim (Bool-cases (new_thread k == k.current_thread)) [
      | inl stay ↦
          let same : new_thread k ≡ k.current_thread = ground (arith, stay) in
          rw stay (
            IsKernel-same k _ q v refl (λ t. (refl, refl, refl)),
            subst (IsNext q k.idle_thread) same next,
          )
      | inr leave ↦ rw leave (IsKernel-same k _ q v refl (λ t. ground arith), next)
    ])

pub StopsIn-and_then :
    {A B : Type 0} (p : Kernel → Type 0) (o : Outcome A) (f : A → Kernel → Outcome B)
    → ((a : A) (k : Kernel) → p k → StopsIn p (f a k))
    → StopsIn p o
    → StopsIn p (and_then o f)
unfolding and_then
StopsIn-and_then p (done a k) f keep h = keep a k h
StopsIn-and_then p (away k rest) f keep h = h
StopsIn-and_then p stuck f keep h = h

pub length-erase : (t : Ptr) (xs : List Ptr) → length (erase t xs) ≤ length xs
length-erase t [] = ground arith
length-erase t (x ∷ xs) = ground (arith, length-erase t xs)

module _ (k : Kernel) (q : Queues) (v : IsKernel k q) where
  abbrev t : Ptr
  t = k.current_thread

  -- The current thread, taken out, is put behind its queue.
  pub requeued :
      IsAlive k t
      → state_of k t ≡ ready_thread
      → (s : Ready) → IsReady s (yielded k q)
      → IsKernel (record k { active_threads = s }) (yielded k q)
  requeued alive is_ready s held = record {
    ready = held;
    members = λ x i j h. ground (
      arith,
      alive,
      is_ready,
      v.members x i j,
      has_of-has-erase x t (q i j),
      has-append x (erase t (q i j)) (t ∷ []),
    );
    waiting = λ x a r. ground (
      arith,
      v.waiting x,
      has-erase_ne x t (q (row_of k x) (column_of k x)),
      has-append x (erase t (q (row_of k x) (column_of k x))) (t ∷ []),
    );
    null_free = v.null_free;
  }

-- From a kernel whose structure holds the queues, with a living current thread that is ready, no
-- interrupt being served and as much fuel as its queue is long, `pthread_yield_sys` returns or leaves
-- with the current thread moved behind the queue of its priority, and the current thread that is
-- then to run.
pub pthread_yield_sys-IsNext :
    (fuel : ℕ) (k : Kernel) (q : Queues)
    → IsKernel k q
    → IsAlive k k.current_thread
    → state_of k k.current_thread ≡ ready_thread
    → bit_and k.irq_nesting_counter outside_irqs ≡ 0
    → length (q (row_of k k.current_thread) (column_of k k.current_thread)) ≤ fuel
    → StopsIn
        (λ k'. IsKernel k' (yielded k q) × IsNext (yielded k q) k'.idle_thread k'.current_thread)
        (pthread_yield_sys fuel k)
unfolding pthread_yield_sys
pthread_yield_sys-IsNext fuel k q v alive is_ready e enough =
    let t = k.current_thread in
    let (s, found, held) =
      insert_ss_tail-IsReady fuel (remove_ss t k.active_threads) (drop t q) t
        (k.threads t).sched_priority (remove_ss-IsReady k.active_threads q t v.ready)
        (alive-ne-null k q v t alive) (drop-Absent k q v t)
        (omega (arith, enough, length-erase t (q (row_of k t) (column_of k t)))) in
    rw (found, pthread_yield_sys)
      (StopsIn-and_then _ (scheduling (record k { active_threads = s })) _ (λ a k' h. h)
        (scheduling-IsNext (record k { active_threads = s }) (yielded k q)
          (requeued k q v alive is_ready s held) e))

-- Of a thread that leaves the processor in `k`, is switched back in in `k'` with the time used as it
-- left it, whatever else of it has changed, and leaves it again, the time used grows by the two runs and not by the time between, over 64
-- bits, if the clock does not go back during the runs and its readings fit in 64 bits.
pub charge_time-switched_in :
    (k k' : Kernel)
    → (current k').used_time ≡ (current (charge_time k)).used_time
    → (current k).starting_time ≤ gettime k
    → gettime k < 2 ^ 64
    → gettime k' ≤ gettime (switched_in k')
    → gettime (switched_in k') < 2 ^ 64
    → (current (charge_time (switched_in k'))).used_time
      ≡ ((current k).used_time
          + (gettime k - (current k).starting_time)
          + (gettime (switched_in k') - gettime k'))
        % 2 ^ 64
unfolding charge_time switched_in
charge_time-switched_in k k' same h1 h2 h3 h4 =
    let used : (current k').used_time
        ≡ ((current k).used_time + gettime k + 2 ^ 64 - (current k).starting_time) % 2 ^ 64 =
      same ∙ ground arith in
    ground (arith, used)
