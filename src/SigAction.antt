-- ===== src/SigAction.antt =====
-- The table of signal handlers of server/core/port/signal.c. The addresses of its own handlers are
-- arguments.
pub mod Laws
use l4ertl.Signal.{nrsignals}
use l4ertl.Bitmap.{setbit}
use l4ertl.Kernel.{success, eintr, set_errno, failure, done, Outcome, Kernel}
use l4ertl.Base.{update, some, none, not, ◌||◌, int_ltb, Option, ◌==◌, Ptr, ℕ, if◌then◌else◌}
use Prim.Native.Nat.{ℕ}

-- struct sigaction, and an entry of signal_table
pub record SignalAction : Type 0 where
  pub sa_handler : Ptr
  pub sa_mask : ℕ

abbrev pub sig_dfl : Ptr
sig_dfl = 1

abbrev pub sig_ign : Ptr
sig_ign = 2

abbrev pub first_user_signal : ℕ
first_user_signal = 6

-- The addresses of sa_handler_SIG_DFL, sa_handler_SIG_IGN and the three handlers of the kernel.
pub record OwnHandlers : Type 0 where
  pub sa_handler_dfl : Ptr
  pub sa_handler_ign : Ptr
  pub cancel_thread_handler : Ptr
  pub sleep_thread_handler : Ptr
  pub wakeup_thread_handler : Ptr

-- What is stored in `*oact`.
unfoldable pub reported : OwnHandlers → SignalAction → SignalAction
reported own entry = record {
  sa_handler =
      if entry.sa_handler == own.sa_handler_dfl
      then sig_dfl
      else if entry.sa_handler == own.sa_handler_ign
      then sig_ign
      else entry.sa_handler;
  sa_mask = entry.sa_mask;
}

-- The entry that `*act` makes.
unfoldable pub installed : OwnHandlers → SignalAction → SignalAction
installed own act = record {
  sa_handler =
      if act.sa_handler == sig_dfl
      then own.sa_handler_dfl
      else if act.sa_handler == sig_ign
      then own.sa_handler_ign
      else act.sa_handler;
  sa_mask = act.sa_mask;
}

-- What is returned, what is stored in `*oact` and the table.
unfoldable pub sigaction_sys :
    OwnHandlers
    → ℕ
    → Option SignalAction
    → (ℕ → SignalAction)
    → Kernel
    → Outcome (ℕ × Option SignalAction × (ℕ → SignalAction))
unfolding reported installed
sigaction_sys own sig act table k =
    if int_ltb sig first_user_signal || not (int_ltb sig nrsignals)
    then done (failure, none, table) (set_errno eintr k)
    else done
        (
          success,
          some (reported own (table sig)),
          elim act [ none ↦ table | some a ↦ update table sig (installed own a) ],
        )
        k

-- The table that `init_signals` makes.
unfoldable pub init_signals : OwnHandlers → ℕ → SignalAction
init_signals own signal = record {
  sa_handler =
      if signal == 1
      then own.cancel_thread_handler
      else if signal == 2
      then own.sleep_thread_handler
      else if signal == 3
      then own.wakeup_thread_handler
      else own.sa_handler_ign;
  sa_mask = setbit 0 signal;
}
