-- ===== src/Bits.antt =====
-- Laws of the bit operations at variables: one digit at a time, and bit by bit.
mod Step
mod Test
pub use Step.*
unfoldable pub use Test.*
