-- ===== src/Cond/Laws.antt =====
-- What signalling a condition variable does.
use l4ertl.Sched.Objects.{
  scheduling-SameFlags, scheduling-Keeps, scheduling-Keeps, StopsIn-both, StopsIn-map,
}
use l4ertl.Wake.Laws.{wake_all-IsEmptied}
use l4ertl.Sched.Switch.{StopsIn-and_then, IsKernel-same, StopsIn, IsNext}
use l4ertl.Flags.{get_thread_state, ready_thread, finished_thread}
use l4ertl.Sched.{scheduling, outside_irqs, state_of}
use l4ertl.Sched.Invariant.{IsAlive, IsKernel}
use l4ertl.Chain.{has}
use l4ertl.ThreadList.Lists.{IsLists-ext, IsLists}
use l4ertl.Ready.Queues.{Queues}
use l4ertl.Kernel.{Kernel}
use l4ertl.Cond.{scheduling, set_cond, pthread_cond_broadcast_sys}
use l4ertl.Base.{
  ◌∙◌, false, ◌==◌, sym, subst, ap, arith, refl, ◌<◌, length, true, bit_and, ◌≡◌, null, [], ◌≢◌,
  update, List, ℕ, Ptr,
}

abbrev pub CondLists : Kernel → (Ptr → List Ptr) → Type 0
CondLists k w = IsLists k.cond_links k.conds w

-- No thread waits on the condition variable, those that did and have not finished are ready, and the
-- thread that runs is the one that is to.
pub record IsBroadcast (c : Ptr) (w : Ptr → List Ptr) (k k' : Kernel) : Type 0 where
  pub lists : CondLists k' (update w c [])
  pub ready :
      (t : Ptr) → has t (w c) ≡ true → state_of k t ≢ finished_thread → state_of k' t ≡ ready_thread
  pub next : (q : Queues) × IsKernel k' q × IsNext q k'.idle_thread k'.current_thread

-- Where the queues are held, the condition variables have their waiting threads, which live, and no
-- interrupt is being served, `pthread_cond_broadcast_sys` with more fuel than threads wait on the
-- variable returns or leaves with nobody waiting on it, every thread that waited on it and has not
-- finished ready, and the thread that is then to run.
pub pthread_cond_broadcast_sys-IsBroadcast :
    (fuel : ℕ) (c : Ptr) (w : Ptr → List Ptr) (k : Kernel) (q : Queues)
    → c ≢ null
    → IsKernel k q
    → CondLists k w
    → bit_and k.irq_nesting_counter outside_irqs ≡ 0
    → ((t : Ptr) → has t (w c) ≡ true → IsAlive k t)
    → length (w c) < fuel
    → StopsIn (IsBroadcast c w k) (pthread_cond_broadcast_sys fuel c k)
unfolding pthread_cond_broadcast_sys
pthread_cond_broadcast_sys-IsBroadcast fuel c w k q real v lists e waiters enough =
    let (r, found, emptied) =
      wake_all-IsEmptied fuel c (w c) w k.conds k.cond_links k q enough refl lists v waiters in
    let k1 = set_cond c r.head (record r.result { cond_links = r.links }) in
    let (q1, held) = emptied.queues in
    let held1 = IsKernel-same r.result k1 q1 held refl (λ x. (refl, refl, refl)) in
    let lists1 : CondLists k1 (update w c []) =
      IsLists-ext _ _ _ _ _ _ emptied.lists
        (λ x. (refl, refl, ground (arith, ap (λ (f : Ptr → Ptr). f x) emptied.same.3)))
        (λ x. refl) in
    let e1 = subst (λ n. bit_and n outside_irqs ≡ 0) (sym emptied.same.6) e in
    let test : (c == null) ≡ false = ground arith in
    rw (test, found, pthread_cond_broadcast_sys)
      (StopsIn-and_then (IsBroadcast c w k) (scheduling k1) _ (λ a k' h. h)
        (StopsIn-map _ _ (scheduling k1)
          (λ k' h. record {
            lists = rw (h.0.1.2, h.0.1.3) lists1;
            ready = λ t waits alive.
                ap (λ s. get_thread_state s) (h.1 t)
                ∙ ground (arith, emptied.woken t, waits, alive);
            next = (q1, h.0.0.0, h.0.0.1);
          })
          (StopsIn-both _ _ (scheduling k1) (scheduling-Keeps k1 q1 held1 e1)
            (scheduling-SameFlags k1))))
