-- ===== src/Flags.antt =====
-- The word `thread_flags` of a thread: the macros SET_THREAD_... and GET_THREAD_... of
-- include/ertl_core/pthread.h. A flag word is an unsigned long of 32 bits.
pub mod Field
pub mod Laws
pub mod State
use l4ertl.Base.{ℕ, ◌*◌, ◌/◌, ◌^◌, bit_and, bit_or, Bool, ◌==◌, if◌then◌else◌, not}
use l4ertl.Bitmap.{complement}

abbrev pub ready_thread : ℕ
ready_thread = 0

abbrev pub suspended_thread : ℕ
suspended_thread = 1

abbrev pub finished_thread : ℕ
finished_thread = 2

-- `flags &= ~mask; flags |= value`
unfoldable pub set_field : ℕ → ℕ → ℕ → ℕ
set_field flags mask value = bit_or (bit_and flags (complement mask)) value

-- `flags = (state)? flags | mask : flags & ~mask`
unfoldable pub set_flag : ℕ → ℕ → ℕ → ℕ
set_flag flags mask state =
    if state == 0 then bit_and flags (complement mask) else bit_or flags mask

unfoldable pub set_thread_state : ℕ → ℕ → ℕ
set_thread_state flags state = set_field flags 0x7 (bit_and state 0x7)

unfoldable pub get_thread_state : ℕ → ℕ
get_thread_state flags = bit_and flags 0x7

unfoldable pub get_thread_detach_state : ℕ → ℕ
get_thread_detach_state flags = bit_and flags 0x8

unfoldable pub set_thread_detach_state : ℕ → ℕ → ℕ
set_thread_detach_state flags state = set_flag flags 0x8 state

unfoldable pub get_thread_cancel_state : ℕ → ℕ
get_thread_cancel_state flags = bit_and flags 0x10

unfoldable pub set_thread_cancel_state : ℕ → ℕ → ℕ
set_thread_cancel_state flags state = set_flag flags 0x10 state

unfoldable pub get_thread_cancel_type : ℕ → ℕ
get_thread_cancel_type flags = bit_and flags 0x20

unfoldable pub set_thread_cancel_type : ℕ → ℕ → ℕ
set_thread_cancel_type flags state = set_flag flags 0x20 state

unfoldable pub set_thread_policy : ℕ → ℕ → ℕ
set_thread_policy flags policy = set_field flags 0x3c0 (bit_and policy 0xf * 2 ^ 6)

unfoldable pub get_thread_policy : ℕ → ℕ
get_thread_policy flags = bit_and flags 0x3c0 / 2 ^ 6

unfoldable pub set_thread_activate_on_signal : ℕ → ℕ → ℕ
set_thread_activate_on_signal flags activate = set_flag flags 0x400 activate

unfoldable pub get_thread_activate_on_signal : ℕ → ℕ
get_thread_activate_on_signal flags = bit_and flags 0x400
