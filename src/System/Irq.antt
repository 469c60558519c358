-- ===== src/System/Irq.antt =====
-- An interrupt whose handler posts a semaphore keeps the invariant.
use l4ertl.Signal.{nrsignals}
use l4ertl.Deliver.{mask_during, do_signals, set_sigmask, run_handlers, take_pending}
use l4ertl.SigAction.{SignalAction}
use l4ertl.Base.{
  zero, not, ◌&&◌, suc, if◌then◌else◌, ◌/◌, ℕ, Ptr, null, List, ◌≡◌, ◌⊎◌, inl, inr, refl, arith,
  Bool-cases, ◌==◌, ◌%◌, ◌+◌, int_ltb,
}
use l4ertl.Flags.{get_thread_cancel_state}
use l4ertl.Kernel.{current, Kernel, Outcome, done, away, stuck, and_then, set_errno, einval, erange}
use l4ertl.Ready.Queues.{Queues}
use l4ertl.Sched.{scheduling, sched_pending}
use l4ertl.Sched.Switch.{IsNext}
use l4ertl.Semaphore.{sem_post_sys, give_one, sem_value_max}
use l4ertl.System.{SignalAction, returning}
use l4ertl.System.Safe.{scheduling-IsSafe, IsSafe, IsSound, IsSound-same, Keeps, Keeps-and_then}
use l4ertl.System.Calls.{refused, counted, woken, post_case}
use l4ertl.Interrupt.{do_irq, enter_irq, leave_irq}

-- While one interrupt is being served: the thread that runs is the one that is to, or `scheduling` is
-- pending.
abbrev pub InIrq : Kernel → Type 0
InIrq k =
    (q : Queues) × (w : Ptr → List Ptr) × IsSound k q w
    × (((k.irq_nesting_counter ≡ 1) × IsNext q k.idle_thread k.current_thread)
        ⊎ (k.irq_nesting_counter ≡ sched_pending + 1))

-- The call returns, and does not leave the processor.
abbrev pub Stays : {A : Type 0} → (Kernel → Type 0) → Outcome A → Type 0
Stays P (done a k) = P k
Stays P (away k rest) = ⊥
Stays P stuck = ⊥

set_errno-InIrq : (e : ℕ) (k : Kernel) → InIrq k → InIrq (set_errno e k)
set_errno-InIrq e k (q, w, v, next) =
    (q, w, IsSound-same k _ q w v refl (λ t. ground arith) refl (λ o. refl), next)

give_one-InIrq : (s : Ptr) (k : Kernel) → InIrq k → Stays InIrq (give_one s k)
unfolding give_one
give_one-InIrq s k (q, w, v, next) = elim (Bool-cases (int_ltb (k.sems s).value sem_value_max)) [
  | inl e ↦
      rw e
        (q, w, IsSound-same k _ q w v refl (λ t. (refl, refl, refl)) refl (λ o. ground arith), next)
  | inr e ↦ rw e (set_errno-InIrq erange k (q, w, v, next))
]

scheduling-InIrq :
    (k : Kernel) (q : Queues) (w : Ptr → List Ptr)
    → IsSound k q w
    → (k.irq_nesting_counter ≡ 1) ⊎ (k.irq_nesting_counter ≡ sched_pending + 1)
    → (k1 : Kernel) × (scheduling k ≡ done tt k1) × InIrq k1
unfolding scheduling
scheduling-InIrq k q w v (inl e) = (
  record k { irq_nesting_counter = sched_pending + 1 },
  rw e refl,
  (q, w, IsSound-same k _ q w v refl (λ t. (refl, refl, refl)) refl (λ o. refl), inr refl),
)
scheduling-InIrq k q w v (inr e) = (
  record k { irq_nesting_counter = sched_pending + 1 },
  rw e refl,
  (q, w, IsSound-same k _ q w v refl (λ t. (refl, refl, refl)) refl (λ o. refl), inr refl),
)

pub sem_post_sys-InIrq : (s : Ptr) (k : Kernel) → InIrq k → Stays InIrq (sem_post_sys s k)
unfolding and_then
sem_post_sys-InIrq s k (q, w, v, next) = elim (post_case s k q w v) [
  | refused e ↦ rw e (set_errno-InIrq einval k (q, w, v, next))
  | counted k1 w1 e v1 same ↦
      rw e (give_one-InIrq s k1 (q, w1, v1, rw (same.0, same.1, same.2) next))
  | woken k1 q1 w1 e v1 same ↦
      let pending : (k1.irq_nesting_counter ≡ 1) ⊎ (k1.irq_nesting_counter ≡ sched_pending + 1) =
        rw same (elim next [ inl n ↦ inl n.0 | inr n ↦ inr n ]) in
      let (k2, stays, in_irq) = scheduling-InIrq k1 q1 w1 v1 pending in
      rw (e, stays) (give_one-InIrq s k2 in_irq)
]

pub Stays-and_then :
    {A B : Type 0} (P R : Kernel → Type 0) (o : Outcome A) (f : A → Kernel → Outcome B)
    → ((a : A) (k : Kernel) → P k → Keeps R (f a k))
    → Stays P o
    → Keeps R (and_then o f)
unfolding and_then
Stays-and_then P R (done a k) f keep h = keep a k h
Stays-and_then P R (away k rest) f keep h = absurd h
Stays-and_then P R stuck f keep h = absurd h

Stays-returning :
    {A : Type 0} (P : Kernel → Type 0) (o : Outcome A) → Stays P o → Stays P (returning o)
unfolding returning and_then
Stays-returning P (done a k) h = h
Stays-returning P (away k rest) h = h
Stays-returning P stuck h = h

enter_irq-InIrq : (k : Kernel) → IsSafe k → InIrq (enter_irq k)
enter_irq-InIrq k (q, w, v, next, outside) = (
  q,
  w,
  IsSound-same k _ q w v refl (λ t. (refl, refl, refl)) refl (λ o. refl),
  elim outside [ inl e ↦ inl (rw e refl, next) | inr e ↦ inr (rw e refl) ],
)

-- The end of the interrupt, with the call of `scheduling` if it is pending.
leave_irq-Keeps :
    (k : Kernel)
    → InIrq k
    → Keeps IsSafe (
        if (leave_irq k).irq_nesting_counter == sched_pending
        then scheduling (leave_irq k)
        else done tt (leave_irq k))
leave_irq-Keeps k (q, w, v, inl (e, next)) =
    rw e
      (q, w, IsSound-same k _ q w v refl (λ t. (refl, refl, refl)) refl (λ o. refl), next, inl refl)
leave_irq-Keeps k (q, w, v, inr e) = rw e (
    scheduling-IsSafe _ q w (IsSound-same k _ q w v refl (λ t. (refl, refl, refl)) refl (λ o. refl))
      (inr refl))

module _ (call : Ptr → ℕ → Kernel → Outcome (Unit {0})) (table : ℕ → SignalAction)
    (call-Keeps : (a : Ptr) (n : ℕ) (k : Kernel) → IsSafe k → Keeps IsSafe (call a n k)) where
  set_sigmask-IsSafe : (m : ℕ) (k : Kernel) → IsSafe k → IsSafe (set_sigmask m k)
  set_sigmask-IsSafe m k (q, w, v, next, outside) =
      (q, w, IsSound-same k _ q w v refl (λ t. ground arith) refl (λ o. refl), next, outside)

  run_handlers-Keeps :
      (old signal left pend : ℕ) (k : Kernel)
      → IsSafe k
      → Keeps IsSafe (run_handlers call table old signal left pend k)
  unfolding run_handlers
  run_handlers-Keeps old signal zero pend k h = h
  run_handlers-Keeps old signal (suc left) pend k h =
      let k1 = set_sigmask (mask_during table old signal) k in
      let h1 = set_sigmask-IsSafe (mask_during table old signal) k h in
      let keep : (a : Unit {0}) (k' : Kernel)
          → IsSafe k'
          → Keeps IsSafe (run_handlers call table old (signal + 1) left (pend / 2) k') =
        λ a k' h'. run_handlers-Keeps old (signal + 1) left (pend / 2) k' h' in
      elim (Bool-cases (pend == 0)) [
        | inl e ↦ rw e h
        | inr e ↦ rw e (
            Keeps-and_then IsSafe _ _ keep
              (elim (Bool-cases (pend % 2 == 1 && not ((table signal).sa_handler == null))) [
                | inl r ↦ rw r (call-Keeps (table signal).sa_handler signal k1 h1)
                | inr r ↦ rw r h1
              ]))
      ]

  take_pending-IsSafe : (k : Kernel) → IsSafe k → IsSafe (take_pending k).1
  unfolding take_pending
  take_pending-IsSafe k (q, w, v, next, outside) =
      elim (Bool-cases (get_thread_cancel_state (current k).thread_flags == 0)) [
        | inl e ↦
            rw e (
              q,
              w,
              IsSound-same k _ q w v refl (λ t. ground arith) refl (λ o. refl),
              next,
              outside,
            )
        | inr e ↦
            rw e (
              q,
              w,
              IsSound-same k _ q w v refl (λ t. ground arith) refl (λ o. refl),
              next,
              outside,
            )
      ]

  do_signals-Keeps : (k : Kernel) → IsSafe k → Keeps IsSafe (do_signals call table k)
  unfolding do_signals
  do_signals-Keeps k h =
      Keeps-and_then IsSafe _ _ (λ a k1 h1. set_sigmask-IsSafe (current k).sigmask k1 h1)
        (run_handlers-Keeps (current k).sigmask 0 nrsignals (take_pending k).0 (take_pending k).1
          (take_pending-IsSafe k h))

  pub do_irq-Keeps :
      (handler : Kernel → Outcome (Unit {0})) (k : Kernel)
      → IsSafe k
      → Stays InIrq (handler (enter_irq k))
      → Keeps IsSafe (do_irq handler call table k)
  unfolding do_irq
  do_irq-Keeps handler k h stays =
      Keeps-and_then IsSafe _ _ (λ a k3 h3. do_signals-Keeps k3 h3)
        (Stays-and_then InIrq IsSafe (handler (enter_irq k)) _ (λ a k1 h1. leave_irq-Keeps k1 h1)
          stays)

  pub sem_post_irq-Keeps :
      (s : Ptr) (k : Kernel)
      → IsSafe k
      → Keeps IsSafe (do_irq (λ k1. returning (sem_post_sys s k1)) call table k)
  sem_post_irq-Keeps s k h =
      do_irq-Keeps (λ k1. returning (sem_post_sys s k1)) k h
        (Stays-returning InIrq (sem_post_sys s (enter_irq k))
          (sem_post_sys-InIrq s (enter_irq k) (enter_irq-InIrq k h)))
