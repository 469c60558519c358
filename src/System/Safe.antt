-- ===== src/System/Safe.antt =====
-- What holds of the kernel between the calls of the threads, and what the parts of the calls do to it.
use l4ertl.Base.{
  ℕ, Ptr, List, [], ◌∷◌, ◌≡◌, ◌⊎◌, inl, inr, true, false, update, refl, arith, bit_and, subst,
  Bool-cases, ◌==◌,
}
use l4ertl.Chain.{has}
use l4ertl.Flags.{ready_thread, suspended_thread, finished_thread}
use l4ertl.Flags.State.{get-set_thread_state}
use l4ertl.Kernel.{Kernel, Outcome, done, away, stuck, and_then}
use l4ertl.Ready.Queues.{Queues, drop}
use l4ertl.Sched.{
  scheduling, activate_thread, suspend_thread, switched_in, charge_time, new_thread, state_of,
  outside_irqs, sched_pending,
}
use l4ertl.Sched.Invariant.{
  IsKernel, IsAlive, activated, activate_thread-IsKernel, suspend_thread-IsKernel, alive-ne-null,
}
use l4ertl.Sched.Objects.{suspend_thread-SameObjects, activate_thread-SameObjects}
use l4ertl.Sched.Switch.{IsNext, IsKernel-same, new_thread-IsNext}
use l4ertl.Semaphore.{wait_on_sem, pop_waiter}
use l4ertl.Semaphore.Laws.{SemLists, wait_on_sem-SemLists, pop_waiter-SemLists}
use l4ertl.ThreadList.Lists.{IsLists-ext, rest_of}

-- What holds of every state in which the call returns or leaves the processor, if `P` holds of every one
-- in which it is switched back in; it does not get stuck.
abbrev pub Keeps : {A : Type 0} → (Kernel → Type 0) → Outcome A → Type 0
Keeps P (done a k) = P k
Keeps P (away k rest) = P k × ((k' : Kernel) → P k' → Keeps P (rest k'))
Keeps P stuck = ⊥

pub Keeps-and_then :
    {A B : Type 0} (P : Kernel → Type 0) (o : Outcome A) (f : A → Kernel → Outcome B)
    → ((a : A) (k : Kernel) → P k → Keeps P (f a k))
    → Keeps P o
    → Keeps P (and_then o f)
unfolding and_then
Keeps-and_then P (done a k) f keep h = keep a k h
Keeps-and_then P (away k rest) f keep h =
    (h.0, λ k' p. Keeps-and_then P (rest k') f keep (h.1 k' p))
Keeps-and_then P stuck f keep h = h

-- The structure holds the queues of the ready threads, and the semaphores have their waiting threads,
-- which all live and are suspended.
pub record IsSound (k : Kernel) (q : Queues) (w : Ptr → List Ptr) : Type 0 where
  pub held : IsKernel k q
  pub lists : SemLists k w
  pub waiting_is_suspended :
      (t o : Ptr) → has t (w o) ≡ true → IsAlive k t × (state_of k t ≡ suspended_thread)

-- No interrupt is being served.
abbrev pub IsOutside : Kernel → Type 0
IsOutside k = (k.irq_nesting_counter ≡ 0) ⊎ (k.irq_nesting_counter ≡ sched_pending)

-- Besides, the thread that runs is the first one of the highest priority that has threads, or the idle
-- thread, and no interrupt is being served.
abbrev pub IsSafe : Kernel → Type 0
IsSafe k =
    (q : Queues) × (w : Ptr → List Ptr) × IsSound k q w
    × IsNext q k.idle_thread k.current_thread
    × IsOutside k

-- The state with nothing written but the counters, the values of semaphores and the times and error
-- numbers of threads.
abbrev pub SameThreads : Kernel → Kernel → Type 0
SameThreads k k' =
    (t : Ptr)
    → ((k'.threads t).thread_flags ≡ (k.threads t).thread_flags)
      × ((k'.threads t).sched_priority ≡ (k.threads t).sched_priority)
      × ((k'.threads t).magic_number ≡ (k.threads t).magic_number)

pub IsSound-same :
    (k k' : Kernel) (q : Queues) (w : Ptr → List Ptr)
    → IsSound k q w
    → k'.active_threads ≡ k.active_threads
    → SameThreads k k'
    → k'.sem_links ≡ k.sem_links
    → ((o : Ptr) → (k'.sems o).sem_list ≡ (k.sems o).sem_list)
    → IsSound k' q w
unfolding l4ertl.Flags.get_thread_state
IsSound-same k k' q w v active same links heads = record {
  held = IsKernel-same k k' q v.held active same;
  lists = IsLists-ext _ _ _ _ w w v.lists (λ x. ground (arith, links, heads x)) (λ x. refl);
  waiting_is_suspended = λ t o h. ground (arith, same t, v.waiting_is_suspended t o h);
}

outside-zero : (n : ℕ) → (n ≡ 0) ⊎ (n ≡ sched_pending) → bit_and n outside_irqs ≡ 0
outside-zero n (inl e) = rw e refl
outside-zero n (inr e) = rw e refl

-- The operations of the scheduler write no other thread.
activate_thread_other :
    (t x : Ptr) (k : Kernel) → (t == x) ≡ false → (activate_thread t k).threads x ≡ k.threads x
unfolding activate_thread
activate_thread_other t x k ne = ground arith

suspend_thread_other :
    (t x : Ptr) (k : Kernel) → (t == x) ≡ false → (suspend_thread t k).threads x ≡ k.threads x
unfolding suspend_thread
suspend_thread_other t x k ne = ground arith

pub suspend_thread_self :
    (t : Ptr) (k : Kernel)
    → state_of k t ≡ ready_thread
    → (state_of (suspend_thread t k) t ≡ suspended_thread)
      × (((suspend_thread t k).threads t).magic_number ≡ (k.threads t).magic_number)
unfolding suspend_thread
suspend_thread_self t k r =
    ground (arith, r, get-set_thread_state (k.threads t).thread_flags suspended_thread)

module _ (k : Kernel) (q : Queues) (w : Ptr → List Ptr) (v : IsSound k q w) where
  pub activate_thread-IsSound :
      (t : Ptr)
      → IsAlive k t
      → ((o : Ptr) → has t (w o) ≡ false)
      → IsSound (activate_thread t k) (activated k t q) w
  activate_thread-IsSound t alive out =
      let same = activate_thread-SameObjects t k in
      record {
        held = activate_thread-IsKernel k q t v.held alive;
        lists = rw (same.0, same.1) v.lists;
        waiting_is_suspended = λ x o h.
            rw (activate_thread_other t x k (ground (arith, out o))) (v.waiting_is_suspended x o h);
      }

  pub suspend_thread-IsSound :
      (t : Ptr) → state_of k t ≡ ready_thread → IsSound (suspend_thread t k) (drop t q) w
  suspend_thread-IsSound t r =
      let same = suspend_thread-SameObjects t k in
      record {
        held = suspend_thread-IsKernel k q t v.held;
        lists = rw (same.0, same.1) v.lists;
        waiting_is_suspended = λ x o h.
            rw (suspend_thread_other t x k (ground (arith, r, v.waiting_is_suspended x o h)))
              (v.waiting_is_suspended x o h);
      }

  pub wait_on_sem-IsSound :
      (s t : Ptr)
      → IsAlive k t
      → state_of k t ≡ suspended_thread
      → ((o : Ptr) → has t (w o) ≡ false)
      → IsSound (wait_on_sem s t k) q (update w s (t ∷ w s))
  wait_on_sem-IsSound s t alive suspended out = record {
    held = IsKernel-same k _ q v.held refl (λ x. (refl, refl, refl));
    lists = wait_on_sem-SemLists k w v.lists s t (alive-ne-null k q v.held t alive) out;
    waiting_is_suspended = λ x o h.
        ground (arith, alive, suspended, v.waiting_is_suspended x o, v.waiting_is_suspended x s);
  }

  has-rest_of : (x : Ptr) (xs : List Ptr) → has x (rest_of xs) ≡ true → has x xs ≡ true
  has-rest_of x [] h = h
  has-rest_of x (y ∷ ys) h = ground (arith, h)

  pub pop_waiter-IsSound : (s : Ptr) → IsSound (pop_waiter s k) q (update w s (rest_of (w s)))
  pop_waiter-IsSound s = record {
    held = IsKernel-same k _ q v.held refl (λ x. (refl, refl, refl));
    lists = pop_waiter-SemLists k w v.lists s;
    waiting_is_suspended =
        λ x o h. v.waiting_is_suspended x o (ground (arith, has-rest_of x (w s)));
  }

pub switched_in-IsSafe : (k : Kernel) → IsSafe k → IsSafe (switched_in k)
unfolding switched_in
switched_in-IsSafe k (q, w, v, next, outside) =
    (q, w, IsSound-same k _ q w v refl (λ t. ground arith) refl (λ o. refl), next, inl refl)

-- `scheduling` outside interrupts.
pub scheduling-IsSafe :
    (k : Kernel) (q : Queues) (w : Ptr → List Ptr)
    → IsSound k q w
    → IsOutside k
    → Keeps IsSafe (scheduling k)
unfolding scheduling charge_time
scheduling-IsSafe k q w v outside =
    let test : (bit_and k.irq_nesting_counter outside_irqs == 0) ≡ true =
      ground (arith, outside-zero k.irq_nesting_counter outside) in
    let next : IsNext q k.idle_thread (new_thread k) = new_thread-IsNext k q v.held.ready in
    rw test (elim (Bool-cases (new_thread k == k.current_thread)) [
      | inl stay ↦
          let same : new_thread k ≡ k.current_thread = ground (arith, stay) in
          rw stay (
            q,
            w,
            IsSound-same k _ q w v refl (λ t. (refl, refl, refl)) refl (λ o. refl),
            subst (IsNext q k.idle_thread) same next,
            inl refl,
          )
      | inr leave ↦ rw leave (
        (q, w, IsSound-same k _ q w v refl (λ t. ground arith) refl (λ o. refl), next, outside),
        switched_in-IsSafe,
      )
    ])

-- The same, and then something that keeps the invariant.
pub scheduling-Keeps :
    {A : Type 0} (k : Kernel) (q : Queues) (w : Ptr → List Ptr) (f : Unit {0} → Kernel → Outcome A)
    → IsSound k q w
    → IsOutside k
    → ((a : Unit {0}) (k' : Kernel) → IsSafe k' → Keeps IsSafe (f a k'))
    → Keeps IsSafe (and_then (scheduling k) f)
scheduling-Keeps k q w f v outside keep =
    Keeps-and_then IsSafe (scheduling k) f keep (scheduling-IsSafe k q w v outside)
