-- ===== src/Cleanup.antt =====
-- The cleanup handlers of a thread, in server/core/port/pthread.c. `top_cr_table` is an int, kept as
-- a word; calling a handler is left to the code outside the kernel.
pub mod Laws
use l4ertl.Kernel.{set_current, CleanupRoutine, current, Kernel}
use l4ertl.Base.{
  some, none, ◌==◌, ◌-◌, ◌%◌, update, word, ◌+◌, int_ltb, if◌then◌else◌, Option, Ptr, ℕ,
}
use Prim.Native.Nat.{ℕ}

abbrev pub max_cleanup_handlers : ℕ
max_cleanup_handlers = 8

unfoldable pub pthread_cleanup_push_sys : Ptr → Ptr → Kernel → Kernel
pthread_cleanup_push_sys routine arg k =
    let t = current k in
    if int_ltb t.top_cr_table max_cleanup_handlers
    then set_current
        (record t {
          cleanup_routine_table =
              update t.cleanup_routine_table t.top_cr_table
                (record { routine = routine; arg = arg });
          top_cr_table = (t.top_cr_table + 1) % word;
        })
        k
    else k

-- The handler to call, if any, and the kernel.
unfoldable pub pthread_cleanup_pop_sys : ℕ → Kernel → Option CleanupRoutine × Kernel
pthread_cleanup_pop_sys execute k =
    let t = current k in
    if int_ltb 0 t.top_cr_table
    then (let top = (t.top_cr_table + word - 1) % word in
        (
          (if execute == 0 then none else some (t.cleanup_routine_table top)),
          set_current (record t { top_cr_table = top }) k,
        ))
    else (none, k)
