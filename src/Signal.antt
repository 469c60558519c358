-- ===== src/Signal.antt =====
-- server/core/port/signal.c and the signal sets of include/ertl_core/signal.h. A set is a word with a
-- bit for each signal. SigAction has the table of handlers, and Deliver runs them.
pub mod Laws
use l4ertl.Sched.Invariant.{pthread_magic_number}
use l4ertl.Bitmap.{isbitset, setbit, clearbit, complement}
use l4ertl.BitOp.{ffs}
use l4ertl.Flags.{set_thread_activate_on_signal, get_thread_activate_on_signal}
use l4ertl.Kernel.{
  set_thread, esrch, and_then, set_errno, failure, einval, success, fail, current, done, Outcome,
  set_current, Kernel,
}
use l4ertl.Sched.{scheduling, suspend_thread, activate_thread}
use l4ertl.Base.{
  int_ltb, ◌||◌, bit_or, not, null, some, ◌==◌, none, if◌then◌else◌, ◌-◌, Ptr, ◌^◌, bit_and, Option,
  ℕ,
}
use Prim.Native.Nat.{bit_or, bit_and, ℕ}

abbrev pub nrsignals : ℕ
nrsignals = 32

abbrev pub cancel_signal : ℕ
cancel_signal = 1

-- `(1 << FIRST_USER_SIGNAL) - 1`
abbrev pub non_maskable_signals : ℕ
non_maskable_signals = 2 ^ 6 - 1

-- What a function on `*set` returns, and what the set is then; `none` is NULL.
unfoldable pub sigaddset : Option ℕ → ℕ → Kernel → Outcome (ℕ × Option ℕ)
sigaddset none signo k = done (failure, none) (set_errno einval k)
sigaddset (some set) signo k = done (success, some (setbit set signo)) k

unfoldable pub sigdelset : Option ℕ → ℕ → Kernel → Outcome (ℕ × Option ℕ)
sigdelset none signo k = done (failure, none) (set_errno einval k)
sigdelset (some set) signo k = done (success, some (clearbit set signo)) k

unfoldable pub sigemptyset : Option ℕ → Kernel → Outcome (ℕ × Option ℕ)
sigemptyset none k = done (failure, none) (set_errno einval k)
sigemptyset (some set) k = done (success, some 0) k

unfoldable pub sigfillset : Option ℕ → Kernel → Outcome (ℕ × Option ℕ)
sigfillset none k = done (failure, none) (set_errno einval k)
sigfillset (some set) k = done (success, some (complement 0)) k

unfoldable pub sigismember : Option ℕ → ℕ → Kernel → Outcome ℕ
sigismember none signo k = fail einval k
sigismember (some set) signo k = done (if isbitset set signo == 0 then 0 else 1) k

-- `~(mask & ~non_maskable_signals) & pending`
abbrev pub deliverable : ℕ → ℕ → ℕ
deliverable mask pending =
    bit_and (complement (bit_and mask (complement non_maskable_signals))) pending

unfoldable pub pthread_kill_sys : Ptr → ℕ → Kernel → Outcome ℕ
unfolding activate_thread get_thread_activate_on_signal
pthread_kill_sys t sig k =
    if t == null || not ((k.threads t).magic_number == pthread_magic_number)
    then fail esrch k
    else if int_ltb sig 0 || not (int_ltb sig nrsignals)
    then fail einval k
    else (let k1 =
          set_thread t (record (k.threads t) { sigpending = setbit (k.threads t).sigpending sig })
            k in
        done success (
          if not (deliverable (k1.threads t).sigmask (k1.threads t).sigpending == 0)
            || not (get_thread_activate_on_signal (k1.threads t).thread_flags == 0)
          then activate_thread t k1
          else k1))

-- What is returned, and the old mask.
unfoldable pub pthread_sigmask_sys : ℕ → Option ℕ → Kernel → Outcome (ℕ × ℕ)
pthread_sigmask_sys how set k =
    let old = (current k).sigmask in
    elim set [
      | none ↦ done (success, old) k
      | some s ↦
          if how == 0
          then done (success, old) (set_current (record (current k) { sigmask = bit_or old s }) k)
          else if how == 1
          then done (success, old) (set_current (record (current k) { sigmask = s }) k)
          else if how == 2
          then done (success, old)
              (set_current (record (current k) { sigmask = bit_and old (complement s) }) k)
          else done (failure, old) (set_errno einval k)
    ]

unfoldable pub sigsuspend_sys : Option ℕ → Kernel → Outcome ℕ
unfolding suspend_thread scheduling
sigsuspend_sys mask k =
    let old = (current k).sigmask in
    let k1 =
      set_current (record (current k) { sigmask = elim mask [ none ↦ old | some s ↦ s ] }) k in
    and_then (scheduling (suspend_thread k1.current_thread k1))
      (λ _ k2. done success (set_current (record (current k2) { sigmask = old }) k2))

-- The signals of the set that are pending.
abbrev pub awaited : ℕ → Kernel → ℕ
awaited set k = bit_and (current k).sigpending (bit_and set (complement non_maskable_signals))

-- `sig = _ffs (pending); sigpending &= ~(1 << sig)`
unfoldable pub take_signal : ℕ → Kernel → Outcome (ℕ × Option ℕ)
take_signal pending k =
    let sig = ffs pending in
    done (success, some sig)
      (set_current (record (current k) { sigpending = clearbit (current k).sigpending sig }) k)

abbrev pub activate_on_signal : ℕ → Kernel → Kernel
activate_on_signal activate k =
    set_current
      (record (current k) {
        thread_flags = set_thread_activate_on_signal (current k).thread_flags activate;
      })
      k

-- What is returned, and what is stored in `*sig`.
unfoldable pub sigwait_sys : Option ℕ → Kernel → Outcome (ℕ × Option ℕ)
unfolding take_signal sigsuspend_sys
sigwait_sys none k = done (failure, none) (set_errno einval k)
sigwait_sys (some set) k =
    if not (awaited set k == 0)
    then take_signal (awaited set k) k
    else and_then (sigsuspend_sys (some set) (activate_on_signal 1 k)) (λ _ k1.
      let k2 = activate_on_signal 0 k1 in
      if not (awaited set k2 == 0)
      then take_signal (awaited set k2) k2
      else done (failure, none) (set_errno einval k2))

unfoldable pub sigpending_sys : Kernel → Outcome (ℕ × ℕ)
sigpending_sys k = done (success, (current k).sigpending) k
