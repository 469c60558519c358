-- ===== src/Time/Create.antt =====
-- Which timer `timer_create_sys` takes, and what it does when there is none.
use l4ertl.Time.{sigalarm, timer_create_sys}
use l4ertl.Base.{
  ==_refl, inr, int_ltb, ◌||◌, null, leb, not, fun_ext, inl, update, if◌then◌else◌, refl, some, ap,
  zero, ℕ_discrete, none, ◌⊎◌, true, false, arith, ◌==◌, ◌≡◌, ◌+◌, ◌<◌, ◌≤◌, bit_and, Option, ℕ,
}
use l4ertl.Kernel.{and_then, failure, success, done, action_kill, KTimer, Kernel}
use Prim.Native.Nat.{suc, bit_and, ℕ}
use l4ertl.Ktimer.{
  set_ktimer, max_timers, alloc_ktimer, clock_of, timer_in_use, timer_at, free_timer,
}

-- Whether the timer of an index is taken.
abbrev pub InUse : Kernel → ℕ → Type 0
InUse k i = (bit_and (k.timers (timer_at i)).flags timer_in_use == 0) ≡ false

free_timer-skips :
    (left at i : ℕ) (k : Kernel)
    → at ≤ i
    → i < at + left
    → ((j : ℕ) → at ≤ j → j < i → InUse k j)
    → (bit_and (k.timers (timer_at i)).flags timer_in_use == 0) ≡ true
    → free_timer left at k ≡ i
unfolding free_timer
free_timer-skips zero at i k low high used free = absurd (omega (arith, low, high))
free_timer-skips (suc left) at i k low high used free = elim (ℕ_discrete at i) [
  | yes here ↦ ground (arith, here, free, ap (λ j. (k.timers (timer_at j)).flags) here)
  | no later ↦
      let taken = used at (omega arith) (omega (arith, low, later)) in
      let rest =
        free_timer-skips left (at + 1) i k (omega (arith, low, later)) (omega (arith, high))
          (λ j lj hj. used j (omega (arith, lj)) hj) free in
      rw (taken, rest, free_timer) refl
]

free_timer-full :
    (left at : ℕ) (k : Kernel)
    → ((j : ℕ) → at ≤ j → j < at + left → InUse k j)
    → free_timer left at k ≡ at + left
unfolding free_timer
free_timer-full zero at k used = omega arith
free_timer-full (suc left) at k used =
    let taken = used at (omega arith) (omega arith) in
    let rest =
      free_timer-full left (at + 1) k (λ j lj hj. used j (omega (arith, lj)) (omega (arith, hj))) in
    rw (taken, rest, free_timer) (omega arith)

-- The timer that a call for the clock `clockid` makes, by the calling thread.
abbrev pub made : ℕ → Option ℕ → Kernel → KTimer
made clockid evp k = record {
  owner = k.current_thread;
  timer_value = 0;
  timer_interval = 0;
  flags = timer_in_use;
  read_clock = clock_of clockid;
  action = action_kill;
  signo = elim evp [ none ↦ sigalarm | some signo ↦ signo ];
}

-- The kernel after the call, by the index of the timer that it takes, or 32.
abbrev pub after_create : ℕ → ℕ → Option ℕ → Kernel → Kernel
after_create i clockid evp k =
    if i == max_timers
    then set_ktimer null (record (k.timers null) { signo = (made clockid evp k).signo }) k
    else set_ktimer (i + 1) (made clockid evp k) k

update-again : {A : Type 0} (f : ℕ → A) (p : ℕ) (a b : A) → update (update f p a) p b ≡ update f p b
update-again f p a b = fun_ext (λ q. ground arith)

alloc_ktimer-free :
    (clockid i : ℕ) (k : Kernel)
    → i < 32
    → free_timer 32 0 k ≡ i
    → (evp : Option ℕ)
    → alloc_ktimer clockid k.current_thread action_kill k
      ≡ done i (set_ktimer (timer_at i) (record (made clockid evp k) { signo = 0 }) k)
unfolding alloc_ktimer
alloc_ktimer-free clockid i k small e evp =
    let below : leb 32 i ≡ false = ground (arith, small) in rw (e, below) refl

alloc_ktimer-full :
    (clockid : ℕ) (k : Kernel)
    → free_timer 32 0 k ≡ 32
    → alloc_ktimer clockid k.current_thread action_kill k ≡ done failure k
unfolding alloc_ktimer
alloc_ktimer-full clockid k e = rw e refl

-- For each of the three clocks: if `i` is the least index of a timer that is not in use, the call
-- succeeds, stores `i`, and changes nothing but that timer; if all 32 timers are in use, it returns 0 all
-- the same, stores -1 and writes to the address before the array.
pub timer_create_sys-least :
    (clockid i : ℕ) (evp : Option ℕ) (k : Kernel)
    → clockid ≤ 2
    → ((j : ℕ) → j < i → InUse k j)
    → ((i < 32) × ((bit_and (k.timers (timer_at i)).flags timer_in_use == 0) ≡ true)) ⊎ (i ≡ 32)
    → timer_create_sys clockid evp k
      ≡ done (success, some (if i == 32 then failure else i)) (after_create i clockid evp k)
unfolding timer_create_sys and_then
timer_create_sys-least clockid i evp k clock used (inl (small, free)) =
    let valid : (not (clockid == 0 || clockid == 1 || clockid == 2)) ≡ false =
      ground (arith, clock) in
    let found =
      free_timer-skips 32 0 i k (omega arith) (omega (arith, small)) (λ j l h. used j h) free in
    let made_at = alloc_ktimer-free clockid i k small found evp in
    let place : timer_at i ≡ i + 1 = omega (arith, small) in
    let before : (not (int_ltb i 32)) ≡ false = ground (arith, small) in
    let other : (i == 32) ≡ false = ground (arith, small) in
    rw (valid, made_at, before, other, place, ==_refl (i + 1))
      (ap (λ f. done (success, some i) (record k { timers = f }))
        (update-again k.timers (i + 1) (record (made clockid evp k) { signo = 0 })
          (made clockid evp k)))
timer_create_sys-least clockid i evp k clock used (inr full) =
    let valid : (not (clockid == 0 || clockid == 1 || clockid == 2)) ≡ false =
      ground (arith, clock) in
    let found = free_timer-full 32 0 k (λ j l h. used j (omega (arith, h, full))) in
    rw (valid, alloc_ktimer-full clockid k found, full) refl
