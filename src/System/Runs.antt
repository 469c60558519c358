-- ===== src/System/Runs.antt =====
-- The invariant holds of every world that the threads reach, and none of them gets stuck.
use l4ertl.Base.{
  if◌then◌else◌, ℕ, Ptr, Option, some, none, update, ◌≡◌, ◌≢◌, ◌⊎◌, inl, inr, refl, ◌==◌,
  Bool-cases, arith, subst,
}
use mathlib.Core.Option.{some-injective, none-ne-some}
use l4ertl.Kernel.{Kernel, Outcome, done, away, stuck, and_then}
use l4ertl.System.{
  World, Rest, Call, run, returning, after, Step, called, resumed, interrupted, Reach, here, next,
  sem_wait, sem_trywait, sem_post, pthread_yield,
}
use l4ertl.System.Safe.{IsSafe, Keeps}
use l4ertl.System.Calls.{
  returning-Keeps, sem_wait_sys-Keeps, sem_trywait_sys-Keeps, sem_post_sys-Keeps,
}
use l4ertl.System.Irq.{sem_post_irq-Keeps}
use l4ertl.System.Yield.{pthread_yield_sys_cases, pthread_yield_sys-Keeps, yield_fuel}
use l4ertl.SigAction.{SignalAction}

-- What is left of every call keeps the kernel safe.
abbrev pub RestsKeep : (Ptr → Option Rest) → Type 0
RestsKeep paused =
    (t : Ptr) (rest : Rest) → paused t ≡ some rest → (k : Kernel) → IsSafe k → Keeps IsSafe (rest k)

-- The kernel is safe, and what is left of a call keeps it so whenever its thread is switched back in.
abbrev pub IsSafeWorld : World → Type 0
IsSafeWorld w = IsSafe w.kernel × RestsKeep w.paused

run-Keeps :
    (fuel : ℕ) (c : Call) (k : Kernel)
    → IsSafe k
    → k.current_thread ≢ k.idle_thread
    → (run fuel c k ≡ stuck) ⊎ Keeps IsSafe (run fuel c k)
unfolding run returning and_then
run-Keeps fuel (sem_wait s) k h ne = inr (returning-Keeps IsSafe _ (sem_wait_sys-Keeps s k h ne))
run-Keeps fuel (sem_trywait s) k h ne = inr (returning-Keeps IsSafe _ (sem_trywait_sys-Keeps s k h))
run-Keeps fuel (sem_post s) k h ne = inr (returning-Keeps IsSafe _ (sem_post_sys-Keeps s k h))
run-Keeps fuel pthread_yield k h ne = elim (pthread_yield_sys_cases fuel k h ne) [
  | inl out ↦ inl (rw out refl)
  | inr keeps ↦ inr (returning-Keeps IsSafe _ keeps)
]

RestsKeep-update :
    (paused : Ptr → Option Rest) (t : Ptr) (o : Option Rest)
    → RestsKeep paused
    → ((r : Rest) → o ≡ some r → (k : Kernel) → IsSafe k → Keeps IsSafe (r k))
    → RestsKeep (update paused t o)
RestsKeep-update paused t o rests keeps x r x_rest k safe = elim (Bool-cases (t == x)) [
  | inl same ↦ keeps r (subst (λ b. (if b then o else paused x) ≡ some r) same x_rest) k safe
  | inr other ↦ rests x r (subst (λ b. (if b then o else paused x) ≡ some r) other x_rest) k safe
]

after-IsSafeWorld :
    (t : Ptr) (paused : Ptr → Option Rest) (o : Outcome (Unit {0})) (u : World)
    → RestsKeep paused
    → Keeps IsSafe o
    → after t paused o ≡ some u
    → IsSafeWorld u
unfolding after
after-IsSafeWorld t paused (done a k) u rests keeps e =
    subst IsSafeWorld (some-injective _ _ e) (keeps, rests)
after-IsSafeWorld t paused (away k rest) u rests keeps e =
    subst IsSafeWorld (some-injective _ _ e) (
      keeps.0,
      RestsKeep-update paused t (some rest) rests (λ r same k' safe.
          subst (λ (f : Rest). Keeps IsSafe (f k')) (some-injective _ _ same) (keeps.1 k' safe)),
    )
after-IsSafeWorld t paused stuck u rests keeps e = absurd keeps

after-some :
    (t : Ptr) (paused : Ptr → Option Rest) (o : Outcome (Unit {0}))
    → Keeps IsSafe o
    → (u : World) × (after t paused o ≡ some u)
unfolding after
after-some t paused (done a k) keeps = (_, refl)
after-some t paused (away k rest) keeps = (_, refl)
after-some t paused stuck keeps = absurd keeps

run_enough :
    (c : Call) (k : Kernel)
    → IsSafe k
    → k.current_thread ≢ k.idle_thread
    → (fuel : ℕ) × Keeps IsSafe (run fuel c k)
unfolding run
run_enough (sem_wait s) k h ne = (0, returning-Keeps IsSafe _ (sem_wait_sys-Keeps s k h ne))
run_enough (sem_trywait s) k h ne = (0, returning-Keeps IsSafe _ (sem_trywait_sys-Keeps s k h))
run_enough (sem_post s) k h ne = (0, returning-Keeps IsSafe _ (sem_post_sys-Keeps s k h))
run_enough pthread_yield k h ne =
    let fuel = yield_fuel h.0 k in
    (fuel, returning-Keeps IsSafe _ (pthread_yield_sys-Keeps fuel k h ne (omega arith)))

-- The thread that runs goes on with the call it had left, or, if it is in none, makes the call `c`;
-- and the call returns or leaves the processor.
abbrev pub GoesOn : Call → World → Type 0
GoesOn c w =
    let t = w.kernel.current_thread in
    ((rest : Rest) × (v : World) × (w.paused t ≡ some rest)
      × (after t (update w.paused t none) (rest w.kernel) ≡ some v))
    ⊎ ((fuel : ℕ) × (v : World) × (w.paused t ≡ none)
        × (after t w.paused (run fuel c w.kernel) ≡ some v))

goes_on :
    (c : Call) (w : World) (o : Option Rest)
    → w.paused w.kernel.current_thread ≡ o
    → IsSafeWorld w
    → w.kernel.current_thread ≢ w.kernel.idle_thread
    → GoesOn c w
goes_on c w (some rest) e (safe, rests) ne =
    let (v, there) = after-some _ _ (rest w.kernel) (rests _ rest e w.kernel safe) in
    inl (rest, v, e, there)
goes_on c w none e (safe, rests) ne =
    let (fuel, keeps) = run_enough c w.kernel safe ne in
    let (v, there) = after-some _ _ (run fuel c w.kernel) keeps in inr (fuel, v, e, there)

module _ (call : Ptr → ℕ → Kernel → Outcome (Unit {0})) (table : ℕ → SignalAction)
    (call-Keeps : (a : Ptr) (n : ℕ) (k : Kernel) → IsSafe k → Keeps IsSafe (call a n k)) where
  Step-IsSafeWorld : {w u : World} → Step call table w u → IsSafeWorld w → IsSafeWorld u
  unfolding after
  Step-IsSafeWorld {w} {u} (called fuel c ne free e) (safe, rests) =
      elim (run-Keeps fuel c w.kernel safe ne) [
        | inl out ↦
            absurd (
              none-ne-some u (subst (λ o. after w.kernel.current_thread w.paused o ≡ some u) out e))
        | inr keeps ↦ after-IsSafeWorld _ _ _ u rests keeps e
      ]
  Step-IsSafeWorld {w} {u} (resumed rest left e) (safe, rests) =
      after-IsSafeWorld _ _ (rest w.kernel) u
        (RestsKeep-update w.paused _ none rests
          (λ r impossible. absurd (none-ne-some r impossible)))
        (rests w.kernel.current_thread rest left w.kernel safe) e
  Step-IsSafeWorld {w} {u} (interrupted s free e) (safe, rests) =
      after-IsSafeWorld _ _ _ u rests (sem_post_irq-Keeps call table call-Keeps s w.kernel safe) e

  -- In every world that the threads reach from a safe one by the calls on semaphores, by yielding, by
  -- going on with calls they had left, and by interrupts that post semaphores, the handlers of signals
  -- keeping the kernel safe, the kernel is safe: the structure holds the queues of the ready threads,
  -- the semaphores have their waiting threads, which live and are suspended, and the thread that runs
  -- is the first one of the highest priority that has threads, or the idle thread.
  pub Reach-IsSafe : {w u : World} → IsSafeWorld w → Reach call table w u → IsSafeWorld u
  Reach-IsSafe safe here = safe
  Reach-IsSafe safe (next r step) = Step-IsSafeWorld step (Reach-IsSafe safe r)

  -- In every such world in which the thread that runs is not the idle one, it goes on with the call it
  -- had left, or makes any call, and the call returns or leaves the processor.
  pub Reach-GoesOn :
      {w u : World} (c : Call)
      → IsSafeWorld w
      → Reach call table w u
      → u.kernel.current_thread ≢ u.kernel.idle_thread
      → GoesOn c u
  Reach-GoesOn {w} {u} c safe r ne = goes_on c u _ refl (Reach-IsSafe safe r) ne
