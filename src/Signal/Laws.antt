-- ===== src/Signal/Laws.antt =====
-- What waiting for a signal takes.
use l4ertl.Flags.Field.{passes-test, passes}
use l4ertl.Wake.Laws.{activate_thread-Woken}
use l4ertl.Sched.Switch.{IsKernel-same}
use l4ertl.Flags.{get_thread_activate_on_signal, ready_thread, finished_thread}
use l4ertl.Sched.Invariant.{
  activate_thread-IsKernel, activated, pthread_magic_number, alive-ne-null, IsAlive, IsKernel,
}
use l4ertl.Ready.Queues.{Queues}
use l4ertl.Sched.{state_of, activate_thread}
use l4ertl.Bitmap.Laws.{bitmap_set}
use l4ertl.BitOp.Lowest.{ffs-lowest}
use l4ertl.Bitmap.{clearbit, complement}
use l4ertl.BitOp.{ffs}
use l4ertl.Bits.{test_bit-complement, test_bit-zero, bit_and-le, test_bit-bit_and, test_bit}
use l4ertl.Kernel.{set_thread, set_current, success, done, current, Kernel}
use l4ertl.Base.{
  ltb, ◌≤◌, lt→ltb, ltb-ge, int_ltb, inr, inl, null, ◌||◌, Bool-cases, Ptr, ◌⊎◌, refl, ◌∙◌, ap,
  bit_and, arith, ◌==◌, true, false, not, ◌&&◌, ◌≡◌, some, ◌≢◌, word, ◌<◌, ℕ,
}
use l4ertl.Signal.{
  nrsignals, deliverable, activate_thread, pthread_kill_sys, non_maskable_signals, complement, ffs,
  setbit, awaited, Kernel, ℕ, take_signal, sigwait_sys,
}

system_bits : (sig : ℕ) → sig < 6 → test_bit (complement non_maskable_signals) sig ≡ false
unfolding test_bit passes
system_bits sig h =
    let all : passes (λ i. not (test_bit (complement non_maskable_signals) i)) 6 ≡ true = refl in
    ground
      (arith, passes-test (λ i. not (test_bit (complement non_maskable_signals) i)) 6 all sig h)

user_bits : (sig : ℕ) → 6 ≤ sig → sig < 32 → test_bit (complement non_maskable_signals) sig ≡ true
unfolding test_bit passes
user_bits sig low high =
    let wanted = λ (i : ℕ). ltb i 6 || test_bit (complement non_maskable_signals) i in
    let all : passes wanted 32 ≡ true = refl in
    ground (arith, passes-test wanted 32 all sig high, low)

-- The signal is one from 6 on, of the set, and pending.
abbrev pub IsAwaited : ℕ → Kernel → ℕ → Type 0
IsAwaited set k i = (6 ≤ i) × (test_bit set i ≡ true) × (test_bit (current k).sigpending i ≡ true)

awaited-bit :
    (set : ℕ) (k : Kernel) (i : ℕ)
    → test_bit (awaited set k) i ≡ (
        test_bit (current k).sigpending i
        && (test_bit set i && test_bit (complement non_maskable_signals) i))
awaited-bit set k i =
    test_bit-bit_and i (current k).sigpending (bit_and set (complement non_maskable_signals))
    ∙ ap (λ b. test_bit (current k).sigpending i && b)
        (test_bit-bit_and i set (complement non_maskable_signals))

awaited-IsAwaited :
    (set : ℕ) (k : Kernel) (i : ℕ) → i < 32 → test_bit (awaited set k) i ≡ true → IsAwaited set k i
awaited-IsAwaited set k i high h = ground (arith, h, awaited-bit set k i, system_bits i)

IsAwaited-awaited :
    (set : ℕ) (k : Kernel) (i : ℕ) → i < 32 → IsAwaited set k i → test_bit (awaited set k) i ≡ true
IsAwaited-awaited set k i high (low, member, here) =
    ground (arith, member, here, awaited-bit set k i, user_bits i low high)

-- Of a set and a set of pending signals that fit in 32 bits, if a signal below 32 is awaited, that is from
-- 6 on, of the set, and pending, `sigwait_sys` returns 0 and the least such signal without running another
-- thread, and takes that one and no other out of the pending signals of the current thread.
pub sigwait_sys-lowest :
    (set : ℕ) (k : Kernel) (one : ℕ)
    → set < word
    → (current k).sigpending < word
    → one < 32
    → IsAwaited set k one
    → (sig : ℕ) × (k1 : Kernel) × (sigwait_sys (some set) k ≡ done (success, some sig) k1)
      × (sig < 32)
      × IsAwaited set k sig
      × ((i : ℕ) → i < sig → ¬ IsAwaited set k i)
      × ((i : ℕ)
          → i < 32
          → test_bit (current k1).sigpending i
            ≡ (test_bit (current k).sigpending i && not (sig == i)))
unfolding sigwait_sys take_signal
sigwait_sys-lowest set k one small pending_small one_small is_awaited =
    let pending = awaited set k in
    let sig = ffs pending in
    let set_bit : test_bit pending one ≡ true = IsAwaited-awaited set k one one_small is_awaited in
    let some_pending : pending ≢ 0 =
      λ e. ground (arith, set_bit, ap (λ (n : ℕ). test_bit n one) e, test_bit-zero one) in
    let below : pending < word = omega (
      arith,
      pending_small,
      bit_and-le (current k).sigpending (bit_and set (complement non_maskable_signals)),
    ) in
    let (high, at, lower) = ffs-lowest pending some_pending below in
    let test : (pending == 0) ≡ false = ground arith in
    let k1 =
      set_current (record (current k) { sigpending = clearbit (current k).sigpending sig }) k in
    let now : (current k1).sigpending ≡ clearbit (current k).sigpending sig = ground arith in
    (
      sig,
      k1,
      rw test refl,
      high,
      awaited-IsAwaited set k sig high at,
      (λ i less h.
          ground (arith, lower i less, IsAwaited-awaited set k i (omega (arith, less, high)) h)),
      λ i hi.
          ap (λ (n : ℕ). test_bit n i) now
          ∙ (bitmap_set (current k).sigpending sig high pending_small).1 i hi,
    )

-- A signal below 6 cannot be masked, and another one is not if its bit in the mask is not set.
abbrev pub IsUnmasked : ℕ → ℕ → Type 0
IsUnmasked sig mask = (sig < 6) ⊎ (test_bit mask sig ≡ false)

deliverable-nonzero :
    (sig mask pending : ℕ)
    → sig < 32
    → mask < word
    → IsUnmasked sig mask
    → test_bit pending sig ≡ true
    → deliverable mask pending ≢ 0
deliverable-nonzero sig mask pending h hm unmasked here e =
    let masked = bit_and mask (complement non_maskable_signals) in
    let none_set : test_bit (deliverable mask pending) sig ≡ false =
      ap (λ (n : ℕ). test_bit n sig) e ∙ test_bit-zero sig in
    ground (
      arith,
      none_set,
      here,
      unmasked,
      system_bits sig,
      test_bit-bit_and sig (complement masked) pending,
      test_bit-complement 32 sig masked
          (omega (arith, hm, bit_and-le mask (complement non_maskable_signals))) h,
      test_bit-bit_and sig mask (complement non_maskable_signals),
    )

activate_thread-sigpending :
    (t : Ptr) (k : Kernel) → ((activate_thread t k).threads t).sigpending ≡ (k.threads t).sigpending
unfolding activate_thread
activate_thread-sigpending t k =
    elim (Bool-cases (state_of k t == finished_thread || state_of k t == ready_thread)) [
      | inl e ↦ rw e refl
      | inr e ↦ rw e (ground arith)
    ]

-- Where the queues are held, the thread lives, its mask and pending signals fit in 32 bits and the
-- signal is below 32, `pthread_kill_sys` returns 0, adds that signal to those pending for the thread
-- and leaves some queues held; and if the signal is not masked and the thread has not finished, the
-- thread is ready.
pub pthread_kill_sys-wakes :
    (t : Ptr) (sig : ℕ) (k : Kernel) (q : Queues)
    → IsKernel k q
    → IsAlive k t
    → sig < 32
    → (k.threads t).sigpending < word
    → (k.threads t).sigmask < word
    → (k' : Kernel) × (pthread_kill_sys t sig k ≡ done success k')
      × ((q' : Queues) × IsKernel k' q')
      × ((i : ℕ)
          → test_bit (k'.threads t).sigpending i
            ≡ (test_bit (k.threads t).sigpending i || sig == i))
      × (IsUnmasked sig (k.threads t).sigmask
          → state_of k t ≢ finished_thread
          → state_of k' t ≡ ready_thread)
unfolding pthread_kill_sys
pthread_kill_sys-wakes t sig k q v alive small pending_small mask_small =
    let valid : (t == null) ≡ false = ground (arith, alive-ne-null k q v t alive) in
    let magic : ((k.threads t).magic_number == pthread_magic_number) ≡ true =
      ground (arith, alive) in
    let not_negative : int_ltb sig 0 ≡ false = ltb-ge _ _ (omega (arith, small)) in
    let in_range : int_ltb sig nrsignals ≡ true = lt→ltb _ _ (omega (arith, small)) in
    let pending = setbit (k.threads t).sigpending sig in
    let k1 = set_thread t (record (k.threads t) { sigpending = pending }) k in
    let bits = (bitmap_set (k.threads t).sigpending sig small pending_small).0 in
    let held1 : IsKernel k1 q = IsKernel-same k k1 q v refl (λ x. ground arith) in
    let now : (k1.threads t).sigpending ≡ pending = ground arith in
    let mask_same : (k1.threads t).sigmask ≡ (k.threads t).sigmask = ground arith in
    let woken = activate_thread-Woken t k1 t in
    let alive1 : IsAlive k1 t = ground (arith, alive) in
    elim (Bool-cases (
      not (deliverable (k1.threads t).sigmask (k1.threads t).sigpending == 0)
      || not (get_thread_activate_on_signal (k1.threads t).thread_flags == 0))) [
        | inl wakes ↦ (
          activate_thread t k1,
          rw (valid, magic, not_negative, in_range, wakes) refl,
          (activated k1 t q, activate_thread-IsKernel k1 q t held1 alive1),
          (λ i. ap (λ (n : ℕ). test_bit n i) (activate_thread-sigpending t k1 ∙ now) ∙ bits i),
          (λ unmasked unfinished. ground (arith, woken, unfinished)),
        )
        | inr quiet ↦ (
          k1,
          rw (valid, magic, not_negative, in_range, quiet) refl,
          (q, held1),
          (λ i. ap (λ (n : ℕ). test_bit n i) now ∙ bits i),
          (λ unmasked unfinished. absurd (
              deliverable-nonzero sig (k.threads t).sigmask pending small mask_small unmasked
                (ground (arith, bits sig)) (ground (arith, quiet, now, mask_same)))),
        )
      ]
