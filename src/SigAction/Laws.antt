-- ===== src/SigAction/Laws.antt =====
-- What is installed is reported.
use l4ertl.Signal.{nrsignals}
use l4ertl.Kernel.{success, done, Kernel}
use l4ertl.Base.{
  refl, ◌∙◌, ap, update, lt→ltb, true, arith, ltb-ge, false, int_ltb, none, ◌≡◌, ◌≢◌, ◌<◌, ◌≤◌, ℕ,
  some,
}
use l4ertl.SigAction.{
  nrsignals, first_user_signal, Kernel, SignalAction, OwnHandlers, installed, reported,
  sigaction_sys,
}

reported-installed :
    (own : OwnHandlers) (act : SignalAction)
    → own.sa_handler_dfl ≢ own.sa_handler_ign
    → act.sa_handler ≢ own.sa_handler_dfl
    → act.sa_handler ≢ own.sa_handler_ign
    → reported own (installed own act) ≡ act
unfolding reported installed
reported-installed own act apart not_dfl not_ign = ground arith

-- For a signal from 6 to 31, if the addresses of the own handlers of SIG_DFL and SIG_IGN differ, and the handler that is installed is none of those two
-- functions, a second call of `sigaction_sys` without an action reports the one that the first call
-- installed, and no other signal's entry changes.
pub sigaction_sys-twice :
    (own : OwnHandlers) (sig : ℕ) (act : SignalAction) (table : ℕ → SignalAction) (k : Kernel)
    → first_user_signal ≤ sig
    → sig < nrsignals
    → own.sa_handler_dfl ≢ own.sa_handler_ign
    → act.sa_handler ≢ own.sa_handler_dfl
    → act.sa_handler ≢ own.sa_handler_ign
    → (old : SignalAction) × (table1 : ℕ → SignalAction) × (sigaction_sys own sig (some act) table k
        ≡ done (success, some old, table1) k)
      × (sigaction_sys own sig none table1 k ≡ done (success, some act, table1) k)
      × ((other : ℕ) → other ≢ sig → table1 other ≡ table other)
unfolding sigaction_sys
sigaction_sys-twice own sig act table k low high apart not_dfl not_ign =
    let valid_low : int_ltb sig first_user_signal ≡ false = ltb-ge _ _ (omega (arith, low, high)) in
    let valid_high : int_ltb sig nrsignals ≡ true = lt→ltb _ _ (omega (arith, high)) in
    let table1 = update table sig (installed own act) in
    let entry : table1 sig ≡ installed own act = ground arith in
    let back : reported own (table1 sig) ≡ act =
      ap (reported own) entry ∙ reported-installed own act apart not_dfl not_ign in
    (
      reported own (table sig),
      table1,
      rw (valid_low, valid_high) refl,
      rw (valid_low, valid_high) (ap (λ (a : SignalAction). done (success, some a, table1) k) back),
      λ other ne. ground arith,
    )
