-- ===== src/System/Calls.antt =====
-- The calls on semaphores keep the invariant.
use l4ertl.Sched.Objects.{activate_thread-SameObjects, suspend_thread-SameObjects}
use l4ertl.Base.{
  ◌/◌, ℕ, Ptr, null, List, [], ◌∷◌, ◌≡◌, ◌≢◌, inl, inr, true, false, update, refl, arith,
  Bool-cases, ◌==◌, ap, ◌∙◌, subst, ◌%◌, word, ◌+◌, int_ltb,
}
use l4ertl.Chain.{IsChain, has}
use l4ertl.Flags.{ready_thread}
use l4ertl.Kernel.{fail, Kernel, Outcome, and_then, set_errno, einval, eagain, erange}
use l4ertl.Ready.Queues.{Queues, drop}
use l4ertl.Sched.{scheduling, activate_thread, suspend_thread, state_of}
use l4ertl.Sched.Invariant.{IsAlive, activated, alive-ne-null}
use l4ertl.Sched.Switch.{IsNext}
use l4ertl.Semaphore.{
  sem_wait_sys, sem_trywait_sys, sem_post_sys, give_one, set_value, wait_on_sem, pop_waiter,
  sem_value_max,
}
use l4ertl.ThreadList.{remove_head_pthread_list}
use l4ertl.ThreadList.Lists.{remove_head_pthread_list-IsLists, front_of, rest_of}
use l4ertl.System.{returning}
use l4ertl.System.Safe.{
  IsSafe, IsSound, IsSound-same, Keeps, Keeps-and_then, activate_thread-IsSound,
  suspend_thread-IsSound, wait_on_sem-IsSound, pop_waiter-IsSound, scheduling-Keeps,
  suspend_thread_self,
}

-- The same thread runs, and as many interrupts are being served.
abbrev pub SameRunning : Kernel → Kernel → Type 0
SameRunning k k' =
    (k'.current_thread ≡ k.current_thread)
    × (k'.idle_thread ≡ k.idle_thread)
    × (k'.irq_nesting_counter ≡ k.irq_nesting_counter)

pub returning-Keeps :
    {A : Type 0} (P : Kernel → Type 0) (o : Outcome A) → Keeps P o → Keeps P (returning o)
unfolding returning
returning-Keeps P o h = Keeps-and_then P o _ (λ a k p. p) h

-- A thread that runs and is not the idle one lives, is ready and waits on nothing.
pub running_is_ready :
    (k : Kernel) (q : Queues) (w : Ptr → List Ptr)
    → IsSound k q w
    → IsNext q k.idle_thread k.current_thread
    → k.current_thread ≢ k.idle_thread
    → IsAlive k k.current_thread
      × (state_of k k.current_thread ≡ ready_thread)
      × ((o : Ptr) → has k.current_thread (w o) ≡ false)
running_is_ready k q w v (inr (e, _)) ne = absurd (ne e)
running_is_ready k q w v (inl (prio, best)) ne =
    let first : has k.current_thread (q (prio / 32) (prio % 32)) ≡ true =
      rw best.first (ground arith) in
    let (alive, is_ready, _, _) = v.held.members k.current_thread (prio / 32) (prio % 32) first in
    (alive, is_ready, λ o. ground (arith, is_ready, v.waiting_is_suspended k.current_thread o))

pub set_errno-IsSafe : (e : ℕ) (k : Kernel) → IsSafe k → IsSafe (set_errno e k)
set_errno-IsSafe e k (q, w, v, next, outside) =
    (q, w, IsSound-same k _ q w v refl (λ t. ground arith) refl (λ o. refl), next, outside)

set_value-IsSafe : (s n : ℕ) (k : Kernel) → IsSafe k → IsSafe (set_value s n k)
set_value-IsSafe s n k (q, w, v, next, outside) = (
  q,
  w,
  IsSound-same k _ q w v refl (λ t. (refl, refl, refl)) refl (λ o. ground arith),
  next,
  outside,
)

give_one-Keeps : (s : Ptr) (k : Kernel) → IsSafe k → Keeps IsSafe (give_one s k)
unfolding give_one
give_one-Keeps s k h = elim (Bool-cases (int_ltb (k.sems s).value sem_value_max)) [
  | inl e ↦ rw e (set_value-IsSafe s (((k.sems s).value + 1) % word) k h)
  | inr e ↦ rw e (set_errno-IsSafe erange k h)
]

pub sem_trywait_sys-Keeps : (s : Ptr) (k : Kernel) → IsSafe k → Keeps IsSafe (sem_trywait_sys s k)
unfolding sem_trywait_sys
sem_trywait_sys-Keeps s k h = elim (Bool-cases (s == null)) [
  | inl e ↦ rw e (set_errno-IsSafe einval k h)
  | inr e ↦ rw e (elim (Bool-cases ((k.sems s).value == 0)) [
    | inl z ↦ rw z (set_errno-IsSafe eagain k h)
    | inr z ↦ rw z (set_value-IsSafe s _ k h)
  ])
]

pub sem_wait_sys-Keeps :
    (s : Ptr) (k : Kernel)
    → IsSafe k
    → k.current_thread ≢ k.idle_thread
    → Keeps IsSafe (sem_wait_sys s k)
unfolding sem_wait_sys
sem_wait_sys-Keeps s k (q, w, v, next, outside) ne = elim (Bool-cases (s == null)) [
  | inl e ↦ rw e (set_errno-IsSafe einval k (q, w, v, next, outside))
  | inr e ↦ rw e (elim (Bool-cases ((k.sems s).value == 0)) [
    | inl z ↦
        let t = k.current_thread in
        let (alive, is_ready, out) = running_is_ready k q w v next ne in
        let (suspended, magic) = suspend_thread_self t k is_ready in
        rw z (
          scheduling-Keeps (wait_on_sem s t (suspend_thread t k)) (drop t q) (update w s (t ∷ w s))
            _
            (wait_on_sem-IsSound (suspend_thread t k) (drop t q) w
              (suspend_thread-IsSound k q w v t is_ready) s t (magic ∙ alive) suspended out)
            (rw (suspend_thread-SameObjects t k).6 outside) (λ a k' h. set_value-IsSafe s _ k' h))
    | inr z ↦ rw z (set_value-IsSafe s _ k (q, w, v, next, outside))
  ])
]

-- What `sem_post_sys` comes down to.
pub data PostCase (s : Ptr) (k : Kernel) (q : Queues) (w : Ptr → List Ptr) : Type 0 where
  refused : sem_post_sys s k ≡ fail einval k → PostCase s k q w
  counted :
      (k1 : Kernel) (w1 : Ptr → List Ptr)
      → sem_post_sys s k ≡ give_one s k1
      → IsSound k1 q w1
      → SameRunning k k1
      → PostCase s k q w
  woken :
      (k1 : Kernel) (q1 : Queues) (w1 : Ptr → List Ptr)
      → sem_post_sys s k ≡ and_then (scheduling k1) (λ _ k2. give_one s k2)
      → IsSound k1 q1 w1
      → k1.irq_nesting_counter ≡ k.irq_nesting_counter
      → PostCase s k q w

module _ (s : Ptr) (k : Kernel) (q : Queues) (w : Ptr → List Ptr) (v : IsSound k q w) where
  first : (remove_head_pthread_list (k.sems s).sem_list k.sem_links).result ≡ front_of (w s)
  first = (remove_head_pthread_list-IsLists k.sem_links _ w v.lists s).1

  post_waiters : (xs : List Ptr) → w s ≡ xs → s ≢ null → (k.sems s).value ≡ 0 → PostCase s k q w
  unfolding sem_post_sys
  post_waiters [] e real zero =
      let test1 : (s == null) ≡ false = ground arith in
      let test2 : ((k.sems s).value == 0) ≡ true = ground arith in
      let nobody = first ∙ ap front_of e in
      counted (pop_waiter s k) (update w s (rest_of (w s))) (rw (test1, test2, nobody) refl)
        (pop_waiter-IsSound k q w v s) (refl, refl, refl)
  post_waiters (t ∷ ts) e real zero =
      let test1 : (s == null) ≡ false = ground arith in
      let test2 : ((k.sems s).value == 0) ≡ true = ground arith in
      let here : has t (w s) ≡ true = rw e (ground arith) in
      let (alive, _) = v.waiting_is_suspended t s here in
      let somebody : (t == null) ≡ false = ground (arith, alive-ne-null k q v.held t alive) in
      let chain =
        subst (IsChain k.sem_links.next k.sem_links.prev null (k.sems s).sem_list) e
          (v.lists.chain s) in
      let popped : IsSound (pop_waiter s k) q (update w s ts) =
        subst (λ xs. IsSound (pop_waiter s k) q (update w s (rest_of xs))) e
          (pop_waiter-IsSound k q w v s) in
      woken (activate_thread t (pop_waiter s k)) (activated (pop_waiter s k) t q) (update w s ts)
        (rw (test1, test2, first ∙ ap front_of e, somebody) refl)
        (activate_thread-IsSound (pop_waiter s k) q (update w s ts) popped t alive
          (λ o. ground (arith, here, chain, v.lists.one t s o)))
        (activate_thread-SameObjects t (pop_waiter s k)).6

  pub post_case : PostCase s k q w
  unfolding sem_post_sys
  post_case = elim (Bool-cases (s == null)) [
    | inl e ↦ refused (rw e refl)
    | inr e ↦ elim (Bool-cases ((k.sems s).value == 0)) [
      | inl z ↦ post_waiters (w s) refl (ground (arith, e)) (ground (arith, z))
      | inr z ↦ counted k w (rw (e, z) refl) v (refl, refl, refl)
    ]
  ]

pub sem_post_sys-Keeps : (s : Ptr) (k : Kernel) → IsSafe k → Keeps IsSafe (sem_post_sys s k)
sem_post_sys-Keeps s k (q, w, v, next, outside) = elim (post_case s k q w v) [
  | refused e ↦ rw e (set_errno-IsSafe einval k (q, w, v, next, outside))
  | counted k1 w1 e v1 same ↦
      rw e (give_one-Keeps s k1 (q, w1, v1, rw (same.0, same.1) next, rw same.2 outside))
  | woken k1 q1 w1 e v1 same ↦
      rw e (scheduling-Keeps k1 q1 w1 _ v1 (rw same outside) (λ a k' h. give_one-Keeps s k' h))
]
