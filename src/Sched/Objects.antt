-- ===== src/Sched/Objects.antt =====
-- The operations of sched.c write no semaphore, mutex, condition variable or list of waiting threads.
use l4ertl.Flags.{finished_thread, ready_thread}
use l4ertl.Sched.Switch.{scheduling-IsNext, IsNext, StopsIn}
use l4ertl.Sched.Invariant.{IsKernel}
use l4ertl.Base.{arith, refl, ◌||◌, inr, inl, ◌==◌, bit_and, ℕ, Bool-cases, ◌≡◌, Ptr}
use l4ertl.Ready.Queues.{Queues}
use l4ertl.Kernel.{stuck, away, done, Outcome, Kernel}
use l4ertl.Sched.{
  new_thread, ready_thread, finished_thread, outside_irqs, state_of, Ptr, charge_time,
  change_thread_prio, activate_thread, suspend_thread, scheduling,
}

abbrev pub SameObjects : Kernel → Kernel → Type 0
SameObjects k k' =
    (k'.sem_links ≡ k.sem_links)
    × (k'.sems ≡ k.sems)
    × (k'.cond_links ≡ k.cond_links)
    × (k'.conds ≡ k.conds)
    × (k'.mutex_links ≡ k.mutex_links)
    × (k'.mutexes ≡ k.mutexes)
    × (k'.irq_nesting_counter ≡ k.irq_nesting_counter)
    × (k'.current_thread ≡ k.current_thread)

-- The objects, whatever thread runs.
abbrev pub KeepsObjects : Kernel → Kernel → Type 0
KeepsObjects k k' =
    (k'.sem_links ≡ k.sem_links)
    × (k'.sems ≡ k.sems)
    × (k'.cond_links ≡ k.cond_links)
    × (k'.conds ≡ k.conds)
    × (k'.mutex_links ≡ k.mutex_links)
    × (k'.mutexes ≡ k.mutexes)

pub suspend_thread-SameObjects : (t : Ptr) (k : Kernel) → SameObjects k (suspend_thread t k)
unfolding suspend_thread
suspend_thread-SameObjects t k = elim (Bool-cases (state_of k t == finished_thread)) [
  | inl e ↦ rw e (refl, refl, refl, refl, refl, refl, refl, refl)
  | inr e ↦ rw e (refl, refl, refl, refl, refl, refl, refl, refl)
]

pub activate_thread-SameObjects : (t : Ptr) (k : Kernel) → SameObjects k (activate_thread t k)
unfolding activate_thread
activate_thread-SameObjects t k =
    elim (Bool-cases (state_of k t == finished_thread || state_of k t == ready_thread)) [
      | inl e ↦ rw e (refl, refl, refl, refl, refl, refl, refl, refl)
      | inr e ↦ rw e (refl, refl, refl, refl, refl, refl, refl, refl)
    ]

pub change_thread_prio-SameObjects :
    (t : Ptr) (prio : ℕ) (k : Kernel) → SameObjects k (change_thread_prio t prio k)
unfolding change_thread_prio
change_thread_prio-SameObjects t prio k = elim (Bool-cases (state_of k t == ready_thread)) [
  | inl e ↦ rw e (refl, refl, refl, refl, refl, refl, refl, refl)
  | inr e ↦ rw e (refl, refl, refl, refl, refl, refl, refl, refl)
]

pub scheduling-KeepsObjects : (k : Kernel) → StopsIn (KeepsObjects k) (scheduling k)
unfolding scheduling charge_time
scheduling-KeepsObjects k = elim (Bool-cases (bit_and k.irq_nesting_counter outside_irqs == 0)) [
  | inl e ↦ rw e (elim (Bool-cases (new_thread k == k.current_thread)) [
    | inl f ↦ rw f (refl, refl, refl, refl, refl, refl)
    | inr f ↦ rw f (refl, refl, refl, refl, refl, refl)
  ])
  | inr e ↦ rw e (refl, refl, refl, refl, refl, refl)
]

pub StopsIn-both :
    {A : Type 0} (p r : Kernel → Type 0) (o : Outcome A)
    → StopsIn p o
    → StopsIn r o
    → StopsIn (λ k. p k × r k) o
StopsIn-both p r (done a k) x y = (x, y)
StopsIn-both p r (away k rest) x y = (x, y)
StopsIn-both p r stuck x y = x

-- Of a kernel in which the objects are those of `k`.
pub scheduling-Keeps :
    (k : Kernel) (q : Queues)
    → IsKernel k q
    → bit_and k.irq_nesting_counter outside_irqs ≡ 0
    → StopsIn
        (λ k'. (IsKernel k' q × IsNext q k'.idle_thread k'.current_thread) × KeepsObjects k k')
        (scheduling k)
scheduling-Keeps k q v e =
    StopsIn-both _ _ (scheduling k) (scheduling-IsNext k q v e) (scheduling-KeepsObjects k)

pub StopsIn-map :
    {A : Type 0} (p r : Kernel → Type 0) (o : Outcome A)
    → ((k : Kernel) → p k → r k)
    → StopsIn p o
    → StopsIn r o
StopsIn-map p r (done a k) f x = f k x
StopsIn-map p r (away k rest) f x = f k x
StopsIn-map p r stuck f x = x

pub SameObjects-KeepsObjects : (k k' : Kernel) → SameObjects k k' → KeepsObjects k k'
SameObjects-KeepsObjects k k' (a, b, c, d, e, f, g, h) = (a, b, c, d, e, f)

-- No thread changes its state or its flags.
abbrev pub SameFlags : Kernel → Kernel → Type 0
SameFlags k k' = (t : Ptr) → (k'.threads t).thread_flags ≡ (k.threads t).thread_flags

pub change_thread_prio-SameFlags :
    (t : Ptr) (prio : ℕ) (k : Kernel) → SameFlags k (change_thread_prio t prio k)
unfolding change_thread_prio
change_thread_prio-SameFlags t prio k x = elim (Bool-cases (state_of k t == ready_thread)) [
  | inl e ↦ rw e (ground arith)
  | inr e ↦ rw e (ground arith)
]

pub scheduling-SameFlags : (k : Kernel) → StopsIn (SameFlags k) (scheduling k)
unfolding scheduling charge_time
scheduling-SameFlags k = elim (Bool-cases (bit_and k.irq_nesting_counter outside_irqs == 0)) [
  | inl e ↦ rw e (elim (Bool-cases (new_thread k == k.current_thread)) [
    | inl f ↦ rw f (λ t. refl)
    | inr f ↦ rw f (λ t. ground arith)
  ])
  | inr e ↦ rw e (λ t. refl)
]
