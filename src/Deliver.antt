-- ===== src/Deliver.antt =====
-- Running the handlers of signals, in server/core/port/signal.c. `call` runs the handler at an address; an
-- interrupt between `hw_sti` and `hw_cli` is part of it.
use l4ertl.Signal.{cancel_signal, non_maskable_signals, nrsignals}
use l4ertl.Bitmap.{complement}
use l4ertl.SigAction.{SignalAction}
use l4ertl.Base.{
  zero, ◌/◌, ◌+◌, null, not, ◌&&◌, ◌%◌, ◌==◌, if◌then◌else◌, ◌^◌, bit_or, bit_and, Ptr, ℕ,
}
use l4ertl.Flags.{get_thread_cancel_state}
use Prim.Native.Nat.{suc, bit_or, bit_and, ℕ}
use l4ertl.Kernel.{and_then, done, current, set_current, Kernel, Outcome}

-- The pending signals that are not masked.
abbrev pub unmasked : Kernel → ℕ
unmasked k =
    let t = current k in
    bit_and t.sigpending (complement (bit_and t.sigmask (complement non_maskable_signals)))

-- The mask while the handler of a signal runs.
abbrev pub mask_during : (ℕ → SignalAction) → ℕ → ℕ → ℕ
mask_during table old_sigmask signal =
    bit_or (bit_or old_sigmask (table signal).sa_mask) (2 ^ signal)

abbrev pub set_sigmask : ℕ → Kernel → Kernel
set_sigmask mask k = set_current (record (current k) { sigmask = mask }) k

-- The loop over the `left` signals from `signal`.
unfoldable pub run_handlers :
    (Ptr → ℕ → Kernel → Outcome (Unit {0}))
    → (ℕ → SignalAction)
    → ℕ
    → ℕ
    → ℕ
    → ℕ
    → Kernel
    → Outcome (Unit {0})
run_handlers call table old_sigmask signal zero sigpend k = done tt k
run_handlers call table old_sigmask signal (suc left) sigpend k =
    let k1 = set_sigmask (mask_during table old_sigmask signal) k in
    let ran =
      if sigpend % 2 == 1 && not ((table signal).sa_handler == null)
      then call (table signal).sa_handler signal k1
      else done tt k1 in
    let rest =
      and_then ran
        (λ _ k2. run_handlers call table old_sigmask (signal + 1) left (sigpend / 2) k2) in
    if sigpend == 0 then done tt k else rest

-- The signals taken out of the pending ones, less the cancellation if it is disabled.
unfoldable pub take_pending : Kernel → ℕ × Kernel
unfolding get_thread_cancel_state
take_pending k =
    let sigpend = unmasked k in
    let pending = bit_and (current k).sigpending (complement sigpend) in
    let cancel = 2 ^ cancel_signal in
    if get_thread_cancel_state (current k).thread_flags == 0
    then (sigpend, set_current (record (current k) { sigpending = pending }) k)
    else (
      bit_and sigpend (complement cancel),
      set_current (record (current k) { sigpending = bit_or pending (bit_and sigpend cancel) }) k,
    )

unfoldable pub do_signals :
    (Ptr → ℕ → Kernel → Outcome (Unit {0})) → (ℕ → SignalAction) → Kernel → Outcome (Unit {0})
unfolding run_handlers take_pending
do_signals call table k =
    let taken = take_pending k in
    let old_sigmask = (current k).sigmask in
    and_then (run_handlers call table old_sigmask 0 nrsignals taken.0 taken.1)
      (λ _ k1. done tt (set_sigmask old_sigmask k1))
