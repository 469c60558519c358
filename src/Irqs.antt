-- ===== src/Irqs.antt =====
-- The tables of the handlers of interrupts and traps, in server/core/port/irqs.c. A handler is its
-- address; those of the two handlers of the file are arguments. Setting up the interrupts of the
-- processor, which follows in init_irqs_traps, is left out.
use l4ertl.Base.{null, zero, ◌==◌, if◌then◌else◌, ◌+◌, update, suc, Ptr, ℕ}

abbrev pub irq_nr : ℕ
irq_nr = 128

abbrev pub trap_nr : ℕ
trap_nr = 8

pub record HandlerTables : Type 0 where
  pub irq_handler_table : ℕ → Ptr
  pub trap_handler_table : ℕ → Ptr

-- The loop that writes the entries from `cont` on.
unfoldable pub fill_table : Ptr → ℕ → ℕ → (ℕ → Ptr) → ℕ → Ptr
fill_table handler cont zero table = table
fill_table handler cont (suc left) table =
    fill_table handler (cont + 1) left (update table cont handler)

unfoldable pub init_irqs_traps : Ptr → Ptr → HandlerTables → ℕ × HandlerTables
unfolding fill_table
init_irqs_traps default_irq_handler unexpected_trap tables = (
  0,
  record {
    irq_handler_table = fill_table default_irq_handler 0 irq_nr tables.irq_handler_table;
    trap_handler_table = fill_table unexpected_trap 0 trap_nr tables.trap_handler_table;
  },
)

-- The new entry; NULL stands for the handler of the file.
abbrev pub install : Ptr → ℕ → Ptr → (ℕ → Ptr) → ℕ → Ptr
install own n handler table = update table n (if handler == null then own else handler)

-- What is returned is the old handler.
unfoldable pub install_irq_handler_sys : Ptr → ℕ → Ptr → HandlerTables → Ptr × HandlerTables
install_irq_handler_sys default_irq_handler irq handler tables = (
  tables.irq_handler_table irq,
  record tables {
    irq_handler_table = install default_irq_handler irq handler tables.irq_handler_table;
  },
)

unfoldable pub install_trap_handler_sys : Ptr → ℕ → Ptr → HandlerTables → Ptr × HandlerTables
install_trap_handler_sys unexpected_trap trap handler tables = (
  tables.trap_handler_table trap,
  record tables {
    trap_handler_table = install unexpected_trap trap handler tables.trap_handler_table;
  },
)
