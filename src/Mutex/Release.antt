-- ===== src/Mutex/Release.antt =====
-- What releasing a mutex does to the threads that wait on it.
use l4ertl.ThreadList.Lists.{IsLists-ext}
use l4ertl.Wake.Laws.{wake_all-IsEmptied}
use l4ertl.Mutex.{
  pthread_mutex_recursive, uncount_lock, still_locked, pthread_mutex_unlock_sys,
  pthread_prio_protect, set_mutex, release, wake_and_release,
}
use l4ertl.Flags.{ready_thread, finished_thread, get_thread_state}
use l4ertl.Sched.Switch.{StopsIn-and_then, IsKernel-same, StopsIn}
use l4ertl.Chain.{IsChain, has}
use l4ertl.Sched.{change_thread_prio, scheduling, state_of, outside_irqs}
use l4ertl.Mutex.Laws.{MutexLists}
use l4ertl.Sched.Invariant.{alive-ne-null, change_thread_prio-IsKernel, moved, IsKernel, IsAlive}
use l4ertl.Ready.Queues.{Queues}
use l4ertl.Sched.Objects.{
  scheduling-SameFlags, scheduling-Keeps, StopsIn-both, StopsIn-map, change_thread_prio-SameFlags,
  change_thread_prio-SameObjects, SameFlags,
}
use l4ertl.Kernel.{current, success, done, and_then, Mutex, Kernel}
use l4ertl.Base.{
  ◌^◌, ◌≤◌, ◌%◌, ◌-◌, word, ◌+◌, ◌⊎◌, false, inr, inl, not, ◌&&◌, ◌==◌, Bool-cases, sym, subst,
  arith, refl, ◌<◌, ◌≢◌, length, true, ◌∙◌, [], update, ap, bit_and, null, ℕ, ◌≡◌, List, Ptr,
}

-- No thread owns the mutex or waits on it, the threads that waited on it and have not finished are
-- ready, and the structure holds some queues.
pub record IsFreed (m : Ptr) (w : Ptr → List Ptr) (k k' : Kernel) : Type 0 where
  pub unowned : (k'.mutexes m).owner ≡ null
  pub lists : MutexLists k' (update w m [])
  pub ready :
      (t : Ptr) → has t (w m) ≡ true → state_of k t ≢ finished_thread → state_of k' t ≡ ready_thread
  pub queues : (q : Queues) × IsKernel k' q

-- A later kernel with the same mutexes and flags.
IsFreed-later :
    (m : Ptr) (w : Ptr → List Ptr) (k k1 k2 : Kernel)
    → IsFreed m w k k1
    → (k2.mutex_links ≡ k1.mutex_links)
    → (k2.mutexes ≡ k1.mutexes)
    → SameFlags k1 k2
    → ((q : Queues) × IsKernel k2 q)
    → IsFreed m w k k2
IsFreed-later m w k k1 k2 f links mutexes flags queues = record {
  unowned = ap (λ (ms : Ptr → Mutex). (ms m).owner) mutexes ∙ f.unowned;
  lists = rw (links, mutexes) f.lists;
  ready = λ t h n. ap (λ s. get_thread_state s) (flags t) ∙ f.ready t h n;
  queues = queues;
}

module _ (m : Ptr) (w : Ptr → List Ptr) (k : Kernel) where
  -- The priority of the caller as it was, and a call of the scheduler.
  restored :
      (prio : ℕ) (k1 : Kernel)
      → IsFreed m w k k1
      → IsAlive k1 k1.current_thread
      → bit_and k1.irq_nesting_counter outside_irqs ≡ 0
      → StopsIn (IsFreed m w k) (
          and_then
            (scheduling (change_thread_prio k1.current_thread prio k1))
            (λ _ k2. done success k2))
  restored prio k1 f alive e =
      let k2 = change_thread_prio k1.current_thread prio k1 in
      let same = change_thread_prio-SameObjects k1.current_thread prio k1 in
      let (q1, held) = f.queues in
      let q2 = moved k1 k1.current_thread prio q1 in
      let held2 = change_thread_prio-IsKernel k1 q1 k1.current_thread prio held alive in
      let f2 : IsFreed m w k k2 =
        IsFreed-later m w k k1 k2 f same.4 same.5
          (change_thread_prio-SameFlags k1.current_thread prio k1) (q2, held2) in
      let e2 : bit_and k2.irq_nesting_counter outside_irqs ≡ 0 =
        subst (λ c. bit_and c outside_irqs ≡ 0) (sym same.6) e in
      StopsIn-and_then (IsFreed m w k) (scheduling k2) _ (λ a k' h. h)
        (StopsIn-map _ _ (scheduling k2)
          (λ k' h. IsFreed-later m w k k2 k' f2 h.0.1.4 h.0.1.5 h.1 (q2, h.0.0.0))
          (StopsIn-both _ _ (scheduling k2) (scheduling-Keeps k2 q2 held2 e2)
            (scheduling-SameFlags k2)))

  -- The mutex cleared, once nobody waits on it.
  released :
      (k1 : Kernel)
      → MutexLists k1 (update w m [])
      → ((t : Ptr)
          → has t (w m) ≡ true
          → state_of k t ≢ finished_thread
          → state_of k1 t ≡ ready_thread)
      → ((q : Queues) × IsKernel k1 q)
      → IsAlive k1 k1.current_thread
      → bit_and k1.irq_nesting_counter outside_irqs ≡ 0
      → StopsIn (IsFreed m w k) (release m k1)
  unfolding release
  released k1 lists ready (q, held) alive e =
      let mutex = k1.mutexes m in
      let k2 = set_mutex m (record mutex { mutex_list = null; owner = null; counter = 0 }) k1 in
      let nobody : update w m [] m ≡ [] = ground arith in
      let empty : mutex.mutex_list ≡ null =
        subst (IsChain k1.mutex_links.next k1.mutex_links.prev null mutex.mutex_list) nobody
          (lists.chain m) in
      let f : IsFreed m w k k2 = record {
        unowned = ground arith;
        lists =
            IsLists-ext _ _ _ _ _ _ lists (λ x. (refl, refl, ground (arith, empty))) (λ x. refl);
        ready = ready;
        queues = (q, IsKernel-same k1 k2 q held refl (λ x. (refl, refl, refl)));
      } in
      elim (Bool-cases (
        mutex.prio_protection == pthread_prio_protect
        && not (mutex.owner_prio == (current k1).sched_priority))) [
          | inl raised ↦ rw raised (restored mutex.owner_prio k2 f alive e)
          | inr plain ↦ rw plain f
        ]

  module _ (fuel : ℕ) (q : Queues) (v : IsKernel k q) (lists : MutexLists k w)
      (e : bit_and k.irq_nesting_counter outside_irqs ≡ 0) (alive : IsAlive k k.current_thread)
      (waiters_alive : (t : Ptr) → has t (w m) ≡ true → IsAlive k t)
      (enough : length (w m) < fuel) where
    wake_and_release-IsFreed : StopsIn (IsFreed m w k) (wake_and_release fuel m k)
    unfolding wake_and_release release
    wake_and_release-IsFreed =
        let (r, found, emptied) =
          wake_all-IsEmptied fuel m (w m) w (λ o. (k.mutexes o).mutex_list) k.mutex_links k q enough
            refl lists v waiters_alive in
        let k1 =
          set_mutex m (record (r.result.mutexes m) { mutex_list = r.head })
            (record r.result { mutex_links = r.links }) in
        rw (found, wake_and_release)
          (released k1
            (IsLists-ext _ _ _ _ _ _ emptied.lists
              (λ x. (refl, refl, ground (arith, emptied.same.5))) (λ x. refl))
            (λ t h n. ground (arith, emptied.woken t, h, n))
            (
              emptied.queues.0,
              IsKernel-same r.result k1 _ emptied.queues.1 refl (λ x. (refl, refl, refl)),
            )
            (subst (IsAlive r.result) (sym emptied.same.7)
              ((emptied.woken k.current_thread).1 ∙ alive))
            (subst (λ c. bit_and c outside_irqs ≡ 0) (sym emptied.same.6) e))

-- The mutex is not recursive, or its counter is 1 or, read with its sign, less, but not the least number.
abbrev pub IsLastLock : Mutex → Type 0
IsLastLock mutex =
    (mutex.type ≢ pthread_mutex_recursive)
    ⊎ (mutex.counter ≤ 1)
    ⊎ ((2 ^ 31 < mutex.counter) × (mutex.counter < 2 ^ 32))

IsLastLock-last :
    (m : Ptr) (k : Kernel) → IsLastLock (k.mutexes m) → still_locked m (uncount_lock m k) ≡ false
IsLastLock-last m k h = ground (arith, h)

-- Where the queues are held, the mutexes have their waiting threads, which live, the running thread
-- lives and no interrupt is being served, `pthread_mutex_unlock_sys` with more fuel than threads wait
-- on the mutex, by its owner and with no lock to spare, that is by a mutex that is not recursive or by the
-- last lock of a recursive one, returns or leaves with the mutex without an
-- owner, nobody waiting on it and every thread that waited on it and has not finished ready.
pub pthread_mutex_unlock_sys-IsFreed :
    (fuel : ℕ) (m : Ptr) (w : Ptr → List Ptr) (k : Kernel) (q : Queues)
    → IsKernel k q
    → MutexLists k w
    → bit_and k.irq_nesting_counter outside_irqs ≡ 0
    → IsAlive k k.current_thread
    → ((t : Ptr) → has t (w m) ≡ true → IsAlive k t)
    → length (w m) < fuel
    → (k.mutexes m).owner ≡ k.current_thread
    → IsLastLock (k.mutexes m)
    → StopsIn (IsFreed m w k) (pthread_mutex_unlock_sys fuel m k)
unfolding pthread_mutex_unlock_sys
pthread_mutex_unlock_sys-IsFreed fuel m w k q v lists e alive waiters enough own is_last =
    let last = IsLastLock-last m k is_last in
    let held : ((k.mutexes m).owner == null) ≡ false =
      ground (arith, alive-ne-null k q v k.current_thread alive, own) in
    let mine : ((k.mutexes m).owner == k.current_thread) ≡ true = ground (arith, own) in
    rw (held, mine, last) (uncounted (Bool-cases ((k.mutexes m).type == pthread_mutex_recursive)))
  where
    uncounted :
        (((k.mutexes m).type == pthread_mutex_recursive) ≡ true)
          ⊎ (((k.mutexes m).type == pthread_mutex_recursive) ≡ false)
        → StopsIn (IsFreed m w k) (wake_and_release fuel m (uncount_lock m k))
    uncounted (inl r) =
        let k0 =
          set_mutex m (record (k.mutexes m) { counter = ((k.mutexes m).counter + word - 1) % word })
            k in
        rw r (
          StopsIn-map (IsFreed m w k0) (IsFreed m w k) (wake_and_release fuel m k0)
            (λ k' f. record {
              unowned = f.unowned;
              lists = f.lists;
              ready = f.ready;
              queues = f.queues;
            })
            (wake_and_release-IsFreed m w k0 fuel q
              (IsKernel-same k k0 q v refl (λ x. (refl, refl, refl)))
              (IsLists-ext _ _ _ _ _ _ lists (λ x. (refl, refl, ground arith)) (λ x. refl)) e alive
              waiters enough))
    uncounted (inr r) = rw r (wake_and_release-IsFreed m w k fuel q v lists e alive waiters enough)
