-- ===== src/Wake/Laws.antt =====
-- What the loop that activates every thread of a list does.
use l4ertl.Flags.State.{get-set_thread_state}
use l4ertl.Flags.{ready_thread, finished_thread}
use l4ertl.Sched.Invariant.{activate_thread-IsKernel, activated, alive-ne-null, IsAlive, IsKernel}
use l4ertl.Chain.{has}
use l4ertl.Ready.Queues.{Queues}
use l4ertl.ThreadList.Lists.{
  IsLists-ext, rest_of, front_of, remove_head_pthread_list-IsLists, IsLists,
}
use l4ertl.ThreadList.{remove_head_pthread_list, Listed}
use l4ertl.Sched.Objects.{activate_thread-SameObjects, SameObjects}
use l4ertl.Wake.{Listed, wake_all}
use l4ertl.Kernel.{Links, Kernel}
use l4ertl.Base.{
  zero, false, subst, ap, null, refl, suc, inr, inl, some, ◌||◌, true, not, ◌&&◌, ◌<◌, ◌==◌, length,
  if◌then◌else◌, update, Bool-cases, arith, ◌≡◌, ◌∙◌, [], ◌∷◌, ℕ, List, Ptr,
}
use l4ertl.Sched.{state_of, activate_thread}

-- The threads of the list are ready, but for those that have finished, and no other thread differs.
abbrev pub Woken : List Ptr → Kernel → Kernel → Type 0
Woken xs k k' =
    (t : Ptr)
    → (state_of k' t ≡ (
        if has t xs && not (state_of k t == finished_thread) then ready_thread else state_of k t))
      × ((k'.threads t).magic_number ≡ (k.threads t).magic_number)
      × ((k'.threads t).sched_priority ≡ (k.threads t).sched_priority)

pub activate_thread-Woken : (t : Ptr) (k : Kernel) → Woken (t ∷ []) k (activate_thread t k)
unfolding activate_thread
activate_thread-Woken t k x =
    elim (Bool-cases (state_of k t == finished_thread || state_of k t == ready_thread)) [
      | inl e ↦ rw e (ground (arith, e), refl, refl)
      | inr e ↦ rw e (
        ground (arith, e, get-set_thread_state (k.threads t).thread_flags ready_thread),
        ground arith,
        ground arith,
      )
    ]

Woken-cons :
    (t : Ptr) (xs : List Ptr) (k k1 k2 : Kernel)
    → Woken (t ∷ []) k k1
    → Woken xs k1 k2
    → Woken (t ∷ xs) k k2
Woken-cons t xs k k1 k2 f g x = ground (arith, f x, g x)

-- What the loop leaves of the list of the object `o`: no waiting thread, and every thread woken.
pub record IsEmptied (o : Ptr) (xs : List Ptr) (w : Ptr → List Ptr) (heads : Ptr → Ptr) (k : Kernel)
    (r : Listed Kernel) : Type 0 where
  pub lists : IsLists r.links (update heads o r.head) (update w o [])
  pub same : SameObjects k r.result
  pub woken : Woken xs k r.result
  pub queues : (q : Queues) × IsKernel r.result q

SameObjects-trans : (k k1 k2 : Kernel) → SameObjects k k1 → SameObjects k1 k2 → SameObjects k k2
SameObjects-trans k k1 k2 a b =
    (b.0 ∙ a.0, b.1 ∙ a.1, b.2 ∙ a.2, b.3 ∙ a.3, b.4 ∙ a.4, b.5 ∙ a.5, b.6 ∙ a.6, b.7 ∙ a.7)

-- With more fuel than the list of an object has threads, all living, `wake_all` empties it: every
-- thread of the list that has not finished is ready, and the structure holds some queues again.
pub wake_all-IsEmptied :
    (fuel : ℕ) (o : Ptr) (xs : List Ptr) (w : Ptr → List Ptr) (heads : Ptr → Ptr) (l : Links)
    (k : Kernel) (q : Queues)
    → length xs < fuel
    → w o ≡ xs
    → IsLists l heads w
    → IsKernel k q
    → ((t : Ptr) → has t xs ≡ true → IsAlive k t)
    → (r : Listed Kernel) × (wake_all fuel (heads o) l k ≡ some r) × IsEmptied o xs w heads k r
unfolding wake_all
wake_all-IsEmptied zero o xs w heads l k q enough e lists v alive = absurd (omega (arith, enough))
wake_all-IsEmptied (suc fuel) o [] w heads l k q enough e lists v alive =
    let r = remove_head_pthread_list (heads o) l in
    let popped = remove_head_pthread_list-IsLists l heads w lists o in
    let test : (r.result == null) ≡ true = ground (arith, popped.1, ap front_of e) in
    (
      record { head = r.head; links = r.links; result = k },
      rw (test, wake_all) refl,
      record {
        lists =
            subst (λ ys. IsLists r.links (update heads o r.head) (update w o (rest_of ys))) e
              popped.0;
        same = (refl, refl, refl, refl, refl, refl, refl, refl);
        woken = λ t. (refl, refl, refl);
        queues = (q, v);
      },
    )
wake_all-IsEmptied (suc fuel) o (x ∷ xs) w heads l k q enough e lists v alive =
    let r = remove_head_pthread_list (heads o) l in
    let popped = remove_head_pthread_list-IsLists l heads w lists o in
    let first : r.result ≡ x = popped.1 ∙ ap front_of e in
    let alive_x : IsAlive k x = alive x (ground arith) in
    let test : (x == null) ≡ false = ground (arith, alive-ne-null k q v x alive_x) in
    let k1 = activate_thread x k in
    let step = activate_thread-Woken x k in
    let (s, found, done_rest) =
      wake_all-IsEmptied fuel o xs (update w o (rest_of (w o))) (update heads o r.head) r.links k1
        (activated k x q) (omega (arith, enough)) (ground (arith, e)) popped.0
        (activate_thread-IsKernel k q x v alive_x) (λ t h. ground (arith, alive t, h, step t)) in
    let at_o : update heads o r.head o ≡ r.head = ground arith in
    (
      s,
      rw (first, test, wake_all) (subst (λ h. wake_all fuel h r.links k1 ≡ some s) at_o found),
      record {
        lists =
            IsLists-ext _ _ _ _ _ _ done_rest.lists (λ a. (refl, refl, ground arith))
              (λ a. ground arith);
        same = SameObjects-trans k k1 s.result (activate_thread-SameObjects x k) done_rest.same;
        woken = Woken-cons x xs k k1 s.result step done_rest.woken;
        queues = done_rest.queues;
      },
    )
