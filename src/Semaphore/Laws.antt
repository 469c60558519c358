-- ===== src/Semaphore/Laws.antt =====
-- What the calls on semaphores do.
use l4ertl.ThreadList.{remove_head_pthread_list}
use l4ertl.Chain.{has}
use l4ertl.Sched.{activate_thread, suspend_thread, scheduling, outside_irqs}
use l4ertl.ThreadList.Lists.{
  front_of, insert_pthread_list-IsLists, remove_head_pthread_list-IsLists, rest_of, IsLists-ext,
  IsLists,
}
use l4ertl.Sched.Objects.{
  SameObjects-KeepsObjects, activate_thread-SameObjects, suspend_thread-SameObjects,
  scheduling-Keeps, StopsIn-map, KeepsObjects,
}
use l4ertl.Sched.Switch.{StopsIn-and_then, IsKernel-same, IsNext, StopsIn}
use l4ertl.Sched.Invariant.{
  activate_thread-IsKernel, activated, alive-ne-null, suspend_thread-IsKernel, IsAlive, IsKernel,
}
use l4ertl.Base.{
  int_ltb, ◌-◌, lt→ltb, ap, ◌∙◌, ◌<◌, sym, subst, true, ◌==◌, inr, word, ◌%◌, ◌∷◌, ◌+◌, false, inl,
  update, null, ◌≢◌, Bool-cases, refl, arith, ◌≡◌, bit_and, ℕ, List, Ptr,
}
use l4ertl.Semaphore.{
  remove_head_pthread_list, sem_trywait_sys, sem_post_sys, wait_on_sem, sem_value_max, pop_waiter,
  sem_wait_sys, set_value, Ptr, give_one,
}
use l4ertl.Ready.Queues.{drop, Queues}
use l4ertl.Kernel.{Links, success, done, and_then, Outcome, Kernel}

-- The heads of the lists of all semaphores.
abbrev pub sem_lists : Kernel → Ptr → Ptr
sem_lists k o = (k.sems o).sem_list

abbrev pub SemLists : Kernel → (Ptr → List Ptr) → Type 0
SemLists k w = IsLists k.sem_links (sem_lists k) w

-- What is so when a call has returned or left: the structure holds the queues, the thread that runs is
-- the one that is to, and the semaphores have the waiting threads.
abbrev pub Settled : Queues → (Ptr → List Ptr) → Kernel → Type 0
Settled q w k = (IsKernel k q × IsNext q k.idle_thread k.current_thread) × SemLists k w

SemLists-kept :
    (k k' : Kernel) (w : Ptr → List Ptr) → KeepsObjects k k' → SemLists k w → SemLists k' w
SemLists-kept k k' w kept v = rw (kept.0, kept.1) v

-- `scheduling` and then something that writes at most the value of a semaphore.
scheduling-Settled :
    {A : Type 0} (k : Kernel) (q : Queues) (w : Ptr → List Ptr) (f : Unit {0} → Kernel → Outcome A)
    → IsKernel k q
    → SemLists k w
    → bit_and k.irq_nesting_counter outside_irqs ≡ 0
    → ((a : Unit {0}) (k' : Kernel) → Settled q w k' → StopsIn (Settled q w) (f a k'))
    → StopsIn (Settled q w) (and_then (scheduling k) f)
scheduling-Settled k q w f v lists e keep = StopsIn-and_then (Settled q w) (scheduling k) f keep (
    StopsIn-map _ (Settled q w) (scheduling k) (λ k' h. (h.0, SemLists-kept k k' w h.1 lists))
      (scheduling-Keeps k q v e))

set_value-Settled :
    (q : Queues) (w : Ptr → List Ptr) (s v : ℕ) (k : Kernel)
    → Settled q w k
    → Settled q w (set_value s v k)
set_value-Settled q w s v k ((held, next), lists) = (
  (IsKernel-same k _ q held refl (λ t. (refl, refl, refl)), next),
  IsLists-ext _ _ _ _ w w lists (λ x. ground arith) (λ x. refl),
)

give_one-Settled :
    (q : Queues) (w : Ptr → List Ptr) (s : Ptr) (k : Kernel)
    → Settled q w k
    → StopsIn (Settled q w) (give_one s k)
unfolding give_one
give_one-Settled q w s k h = elim (Bool-cases (int_ltb (k.sems s).value sem_value_max)) [
  | inl e ↦ rw e (set_value-Settled q w s (((k.sems s).value + 1) % word) k h)
  | inr e ↦ rw e ((IsKernel-same k _ q h.0.0 refl (λ t. ground arith), h.0.1), h.1)
]

module _ (k : Kernel) (w : Ptr → List Ptr) (lists : SemLists k w) (s : Ptr) where
  pub wait_on_sem-SemLists :
      (t : Ptr)
      → t ≢ null
      → ((a : Ptr) → has t (w a) ≡ false)
      → SemLists (wait_on_sem s t k) (update w s (t ∷ w s))
  wait_on_sem-SemLists t ne absent =
      IsLists-ext _ _ _ _ _ _
        (insert_pthread_list-IsLists k.sem_links (sem_lists k) w lists s t ne absent)
        (λ x. (refl, refl, ground arith)) (λ x. refl)

  pub pop_waiter-SemLists : SemLists (pop_waiter s k) (update w s (rest_of (w s)))
  pop_waiter-SemLists =
      IsLists-ext _ _ _ _ _ _
        (remove_head_pthread_list-IsLists k.sem_links (sem_lists k) w lists s).0
        (λ x. (refl, refl, ground arith)) (λ x. refl)

-- Where the queues are held, the semaphores have their waiting threads, the current thread lives and
-- waits on no semaphore and no interrupt is being served, `sem_wait_sys` on a semaphore of value 0
-- returns or leaves with the current thread in no queue, in front of those that wait on that
-- semaphore, and the thread that is then to run.
pub sem_wait_sys-Settled :
    (k : Kernel) (q : Queues) (w : Ptr → List Ptr) (s : Ptr)
    → IsKernel k q
    → SemLists k w
    → bit_and k.irq_nesting_counter outside_irqs ≡ 0
    → s ≢ null
    → (k.sems s).value ≡ 0
    → IsAlive k k.current_thread
    → ((a : Ptr) → has k.current_thread (w a) ≡ false)
    → StopsIn
        (Settled (drop k.current_thread q) (update w s (k.current_thread ∷ w s)))
        (sem_wait_sys s k)
unfolding sem_wait_sys
sem_wait_sys-Settled k q w s v lists e real zero alive absent =
    let t = k.current_thread in
    let k1 = suspend_thread t k in
    let same = suspend_thread-SameObjects t k in
    let lists1 : SemLists k1 w = SemLists-kept k k1 w (SameObjects-KeepsObjects k k1 same) lists in
    let test1 : (s == null) ≡ false = ground arith in
    let test2 : ((k.sems s).value == 0) ≡ true = ground arith in
    rw (test1, test2, sem_wait_sys)
      (scheduling-Settled (wait_on_sem s t k1) (drop t q) (update w s (t ∷ w s)) _
        (IsKernel-same k1 _ (drop t q) (suspend_thread-IsKernel k q t v) refl
          (λ x. (refl, refl, refl)))
        (wait_on_sem-SemLists k1 w lists1 s t (alive-ne-null k q v t alive) absent)
        (subst (λ c. bit_and c outside_irqs ≡ 0) (sym same.6) e)
        (λ a k' h. set_value-Settled _ _ s _ k' h))

-- Where the queues are held, the semaphores have their waiting threads and no interrupt is being
-- served, `sem_post_sys` on a semaphore of value 0 on which a living thread waits first returns or
-- leaves with that thread out of the list and activated, and the thread that is then to run.
pub sem_post_sys-Settled :
    (k : Kernel) (q : Queues) (w : Ptr → List Ptr) (s t : Ptr) (ts : List Ptr)
    → IsKernel k q
    → SemLists k w
    → bit_and k.irq_nesting_counter outside_irqs ≡ 0
    → s ≢ null
    → (k.sems s).value ≡ 0
    → w s ≡ t ∷ ts
    → IsAlive k t
    → StopsIn (Settled (activated k t q) (update w s ts)) (sem_post_sys s k)
unfolding sem_post_sys
sem_post_sys-Settled k q w s t ts v lists e real zero waits alive =
    let k1 = pop_waiter s k in
    let k2 = activate_thread t k1 in
    let same = activate_thread-SameObjects t k1 in
    let popped : SemLists k1 (update w s ts) =
      subst (λ xs. SemLists k1 (update w s (rest_of xs))) waits (pop_waiter-SemLists k w lists s) in
    let first : (remove_head_pthread_list (k.sems s).sem_list k.sem_links).result ≡ t =
      (remove_head_pthread_list-IsLists k.sem_links (sem_lists k) w lists s).1
      ∙ ap front_of waits in
    let lists2 : SemLists k2 (update w s ts) =
      SemLists-kept k1 k2 (update w s ts) (SameObjects-KeepsObjects k1 k2 same) popped in
    let held1 : IsKernel k1 q = IsKernel-same k _ q v refl (λ x. (refl, refl, refl)) in
    let test1 : (s == null) ≡ false = ground arith in
    let test2 : ((k.sems s).value == 0) ≡ true = ground arith in
    let test3 : (t == null) ≡ false = ground (arith, alive-ne-null k q v t alive) in
    rw (test1, test2, first, test3, sem_post_sys)
      (scheduling-Settled k2 (activated k t q) (update w s ts) _
        (activate_thread-IsKernel k1 q t held1 alive) lists2
        (subst (λ c. bit_and c outside_irqs ≡ 0) (sym same.6) e)
        (λ a k' h. give_one-Settled _ _ s k' h))

give_one-next :
    (s : Ptr) (k : Kernel)
    → (k.sems s).value < sem_value_max
    → give_one s k ≡ done success (set_value s ((k.sems s).value + 1) k)
unfolding give_one
give_one-next s k small =
    let test : int_ltb (k.sems s).value sem_value_max ≡ true = lt→ltb _ _ (omega (arith, small)) in
    let exact : ((k.sems s).value + 1) % word ≡ (k.sems s).value + 1 = omega (arith, small) in
    rw (test, exact) refl

sem_trywait_sys-take :
    (s : Ptr) (k : Kernel) (v : ℕ)
    → s ≢ null
    → (k.sems s).value ≡ v + 1
    → v < sem_value_max
    → sem_trywait_sys s k ≡ done success (set_value s v k)
unfolding sem_trywait_sys
sem_trywait_sys-take s k v real e small =
    let test1 : (s == null) ≡ false = ground arith in
    let test2 : ((k.sems s).value == 0) ≡ false = ground arith in
    let exact : ((k.sems s).value + word - 1) % word ≡ v = omega (arith, small, e) in
    rw (test1, test2, exact) refl

remove_head-null : (h : Ptr) (l : Links) → h ≡ null → (remove_head_pthread_list h l).result ≡ null
unfolding remove_head_pthread_list
remove_head-null h l e = ground arith

post_next :
    (s : Ptr) (k : Kernel)
    → s ≢ null
    → ((k.sems s).value ≡ 0 → (k.sems s).sem_list ≡ null)
    → (k.sems s).value < sem_value_max
    → (k1 : Kernel) × (sem_post_sys s k ≡ done success k1)
      × ((k1.sems s).value ≡ (k.sems s).value + 1)
unfolding sem_post_sys
post_next s k real nobody small =
    let test1 : (s == null) ≡ false = ground arith in
    elim (Bool-cases ((k.sems s).value == 0)) [
      | inl e ↦
          let list : (k.sems s).sem_list ≡ null = nobody (ground arith) in
          let k1 = pop_waiter s k in
          let same : (k1.sems s).value ≡ (k.sems s).value = ground arith in
          let nobody_first : ((remove_head_pthread_list (k.sems s).sem_list k.sem_links).result
                == null)
              ≡ true =
            ground (arith, remove_head-null (k.sems s).sem_list k.sem_links list) in
          (
            set_value s ((k1.sems s).value + 1) k1,
            rw (test1, e, nobody_first) (give_one-next s k1 (omega (arith, same, small))),
            ground (arith, same),
          )
      | inr e ↦ (
        set_value s ((k.sems s).value + 1) k,
        rw (test1, e) (give_one-next s k small),
        ground arith,
      )
    ]

-- On a semaphore on which no thread waits or whose value is not 0, with a value below SEM_VALUE_MAX,
-- `sem_post_sys` returns 0 and adds one, and a `sem_trywait_sys` after it returns 0 and takes it
-- again, and neither runs another thread.
pub sem_trywait_sys-sem_post_sys :
    (k : Kernel) (s : Ptr)
    → s ≢ null
    → ((k.sems s).value ≡ 0 → (k.sems s).sem_list ≡ null)
    → (k.sems s).value < sem_value_max
    → (k1 : Kernel) × (sem_post_sys s k ≡ done success k1)
      × ((k1.sems s).value ≡ (k.sems s).value + 1)
      × ((k2 : Kernel) × (sem_trywait_sys s k1 ≡ done success k2)
          × ((k2.sems s).value ≡ (k.sems s).value))
sem_trywait_sys-sem_post_sys k s real nobody small =
    let (k1, posted, more) = post_next s k real nobody small in
    (
      k1,
      posted,
      more,
      (
        set_value s (k.sems s).value k1,
        sem_trywait_sys-take s k1 (k.sems s).value real more small,
        ground arith,
      ),
    )
