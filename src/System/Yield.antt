-- ===== src/System/Yield.antt =====
-- `pthread_yield_sys` keeps the invariant, and needs no more fuel than its queue is long.
use l4ertl.Base.{
  ℕ, zero, suc, Ptr, null, ◌≡◌, ◌≢◌, ◌⊎◌, ◌≤◌, ◌+◌, inl, inr, refl, arith, Bool-cases, ◌==◌, none,
  length, subst,
}
use l4ertl.Chain.{Field}
use l4ertl.Chain.Tail.{walk}
use l4ertl.Kernel.{Kernel, stuck}
use l4ertl.Ready.{Ready, insert_ss_tail, insert_tail_at, remove_ss, reset_links, prio2ij}
use l4ertl.Ready.Queues.{Queues, drop}
use l4ertl.Ready.Remove.{remove_ss-IsReady}
use l4ertl.Ready.Tail.{insert_ss_tail-IsReady}
use l4ertl.Sched.{pthread_yield_sys}
use l4ertl.Sched.Invariant.{drop-Absent, alive-ne-null, row_of, column_of}
use l4ertl.Sched.Switch.{requeued, yielded, length-erase}
use l4ertl.System.Safe.{IsSafe, Keeps, scheduling-Keeps}
use l4ertl.System.Calls.{running_is_ready}

-- More fuel changes nothing, unless it had run out.
walk_more :
    (fuel n : ℕ) (next : Field) (aux : Ptr)
    → fuel ≤ n
    → (walk fuel next aux ≡ none) ⊎ (walk n next aux ≡ walk fuel next aux)
unfolding walk
walk_more zero n next aux le = inl refl
walk_more (suc fuel) zero next aux le = absurd (omega (arith, le))
walk_more (suc fuel) (suc n) next aux le = elim (Bool-cases (next aux == null)) [
  | inl z ↦ rw z (inr refl)
  | inr z ↦ rw z (walk_more fuel n next (next aux) (omega (arith, le)))
]

insert_ss_tail_more :
    (fuel n : ℕ) (t : Ptr) (prio : ℕ) (r : Ready)
    → fuel ≤ n
    → (insert_ss_tail fuel t prio r ≡ none)
      ⊎ (insert_ss_tail n t prio r ≡ insert_ss_tail fuel t prio r)
unfolding insert_ss_tail insert_tail_at
insert_ss_tail_more fuel n t prio r le =
    let i = (prio2ij prio).0 in
    let j = (prio2ij prio).1 in
    let r1 = reset_links t r in
    elim (Bool-cases (r1.thread_matrix i j == null)) [
      | inl z ↦ rw z (inr refl)
      | inr z ↦ rw z (elim (walk_more fuel n r1.next_matrix (r1.thread_matrix i j) le) [
        | inl out ↦ inl (rw out refl)
        | inr same ↦ inr (rw same refl)
      ])
    ]

pthread_yield_sys_more :
    (fuel n : ℕ) (k : Kernel)
    → fuel ≤ n
    → (pthread_yield_sys fuel k ≡ stuck) ⊎ (pthread_yield_sys n k ≡ pthread_yield_sys fuel k)
unfolding pthread_yield_sys
pthread_yield_sys_more fuel n k le =
    let t = k.current_thread in
    elim (insert_ss_tail_more fuel n t (k.threads t).sched_priority (remove_ss t k.active_threads)
      le) [
        | inl out ↦ inl (rw (out, pthread_yield_sys) refl)
        | inr same ↦ inr (rw (same, pthread_yield_sys) refl)
      ]

-- The fuel that the call needs: the length of the queue of the thread that runs.
abbrev pub yield_fuel : Queues → Kernel → ℕ
yield_fuel q k = length (q (row_of k k.current_thread) (column_of k k.current_thread))

pub pthread_yield_sys-Keeps :
    (fuel : ℕ) (k : Kernel) (h : IsSafe k)
    → k.current_thread ≢ k.idle_thread
    → yield_fuel h.0 k ≤ fuel
    → Keeps IsSafe (pthread_yield_sys fuel k)
unfolding pthread_yield_sys
pthread_yield_sys-Keeps fuel k (q, w, v, next, outside) ne enough =
    let t = k.current_thread in
    let (alive, is_ready, _) = running_is_ready k q w v next ne in
    let (s, found, held) =
      insert_ss_tail-IsReady fuel (remove_ss t k.active_threads) (drop t q) t
        (k.threads t).sched_priority (remove_ss-IsReady k.active_threads q t v.held.ready)
        (alive-ne-null k q v.held t alive) (drop-Absent k q v.held t)
        (omega (arith, enough, length-erase t (q (row_of k t) (column_of k t)))) in
    rw (found, pthread_yield_sys)
      (scheduling-Keeps (record k { active_threads = s }) (yielded k q) w _
        record {
          held = requeued k q v.held alive is_ready s held;
          lists = v.lists;
          waiting_is_suspended = v.waiting_is_suspended;
        }
        outside (λ a k' h. h))

pub pthread_yield_sys_cases :
    (fuel : ℕ) (k : Kernel)
    → IsSafe k
    → k.current_thread ≢ k.idle_thread
    → (pthread_yield_sys fuel k ≡ stuck) ⊎ Keeps IsSafe (pthread_yield_sys fuel k)
pthread_yield_sys_cases fuel k h ne =
    elim (pthread_yield_sys_more fuel (fuel + yield_fuel h.0 k) k (omega arith)) [
      | inl out ↦ inl out
      | inr same ↦ inr (
          subst (Keeps IsSafe) same
            (pthread_yield_sys-Keeps (fuel + yield_fuel h.0 k) k h ne (omega arith)))
    ]
