-- ===== src/Mutex/Laws.antt =====
-- What locking and unlocking a mutex does.
use l4ertl.ThreadList.Lists.{IsLists}
use l4ertl.Kernel.{success, done, Kernel}
use l4ertl.Base.{
  ◌∙◌, sym, ap, subst, refl, lt→ltb, int_ltb, word, ◌%◌, arith, false, true, ◌==◌, ◌+◌, suc, ◌-◌,
  ◌^◌, ◌<◌, ◌≤◌, null, ◌≡◌, ◌≢◌, List, ℕ, Ptr,
}
use l4ertl.Mutex.{
  set_mutex, still_locked, uncount_lock, count_lock, pthread_mutex_errorcheck,
  pthread_mutex_recursive, pthread_mutex_unlock_sys, pthread_mutex_lock_sys,
}

-- The threads that wait on the mutexes.
abbrev pub MutexLists : Kernel → (Ptr → List Ptr) → Type 0
MutexLists k w = IsLists k.mutex_links (λ o. (k.mutexes o).mutex_list) w

-- The owner and the counter.
abbrev pub Locked : Ptr → Ptr → ℕ → Kernel → Type 0
Locked m t n k = ((k.mutexes m).owner ≡ t) × ((k.mutexes m).counter ≡ n)

module _ (fuel n : ℕ) (m : Ptr) (k : Kernel) (lock : Locked m k.current_thread (n + 1) k)
    (real : k.current_thread ≢ null) (type : (k.mutexes m).type ≡ pthread_mutex_recursive)
    (low : 1 ≤ n) (high : n < 2 ^ 31 - 1) where
  uncount_lock-eq : uncount_lock m k ≡ set_mutex m (record (k.mutexes m) { counter = n }) k
  uncount_lock-eq =
      let recursive : ((k.mutexes m).type == pthread_mutex_recursive) ≡ true = ground arith in
      let down : ((k.mutexes m).counter + word - 1) % word ≡ n = omega (arith, lock.1, high) in
      rw (recursive, down) refl

  still_locked-after : still_locked m (uncount_lock m k) ≡ true
  still_locked-after =
      let positive : int_ltb 0 n ≡ true = lt→ltb _ _ (omega (arith, low, high)) in
      ap (still_locked m) uncount_lock-eq ∙ ground (arith, positive)

  unlock_nested :
      (pthread_mutex_unlock_sys fuel m k ≡ done success (uncount_lock m k))
      × Locked m k.current_thread n (uncount_lock m k)
  unfolding pthread_mutex_unlock_sys
  unlock_nested =
      let held : ((k.mutexes m).owner == null) ≡ false = ground (arith, lock) in
      let mine : ((k.mutexes m).owner == k.current_thread) ≡ true = ground (arith, lock) in
      (
        rw (held, mine, still_locked-after) refl,
        subst (Locked m k.current_thread n) (sym uncount_lock-eq) (ground arith),
      )

-- Of a recursive mutex that the running thread holds `n` times, with `n` from 1 to 2 ^ 31 - 2,
-- `pthread_mutex_lock_sys` with fuel for one round returns 0 with the count one higher, and
-- `pthread_mutex_unlock_sys` after it returns 0 with the count as it was and the same owner.
pub pthread_mutex_unlock_sys-pthread_mutex_lock_sys :
    (fuel rounds n : ℕ) (m : Ptr) (k : Kernel)
    → Locked m k.current_thread n k
    → k.current_thread ≢ null
    → (k.mutexes m).type ≡ pthread_mutex_recursive
    → 1 ≤ n
    → n < 2 ^ 31 - 1
    → (k1 : Kernel) × (pthread_mutex_lock_sys (suc rounds) m k ≡ done success k1)
      × Locked m k.current_thread (n + 1) k1
      × ((k2 : Kernel) × (pthread_mutex_unlock_sys fuel m k1 ≡ done success k2)
          × Locked m k.current_thread n k2)
unfolding pthread_mutex_lock_sys
pthread_mutex_unlock_sys-pthread_mutex_lock_sys fuel rounds n m k (own, count) real type low high =
    let held : ((k.mutexes m).owner == null) ≡ false = ground arith in
    let mine : ((k.mutexes m).owner == k.current_thread) ≡ true = ground arith in
    let not_check : ((k.mutexes m).type == pthread_mutex_errorcheck) ≡ false = ground arith in
    let recursive : ((k.mutexes m).type == pthread_mutex_recursive) ≡ true = ground arith in
    let up : ((k.mutexes m).counter + 1) % word ≡ n + 1 = omega (arith, count, high) in
    let lock : Locked m k.current_thread (n + 1) (count_lock m k) = ground (arith, own, up) in
    let (unlocked, after) =
      unlock_nested fuel n m (count_lock m k) lock real (ground (arith, type)) low high in
    (
      count_lock m k,
      rw (held, mine, not_check, recursive) refl,
      lock,
      (uncount_lock m (count_lock m k), unlocked, after),
    )
