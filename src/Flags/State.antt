-- ===== src/Flags/State.antt =====
-- The state field after it is written.
use l4ertl.Bits.{bit_and-mask}
use l4ertl.Base.{◌∙◌, arith, bit_and, ◌%◌, ◌≡◌, ℕ}
use l4ertl.Flags.{ℕ, set_thread_state, get_thread_state}
use l4ertl.Flags.Field.{field-same, Within-bit_and}

pub get-set_thread_state :
    (flags state : ℕ) → get_thread_state (set_thread_state flags state) ≡ state % 8
unfolding get_thread_state set_thread_state
get-set_thread_state flags state =
    field-same flags 0x7 (bit_and state 0x7) (omega arith) (omega (arith, bit_and-mask 3 state))
      (Within-bit_and state 0x7)
    ∙ bit_and-mask 3 state
