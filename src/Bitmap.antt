-- ===== src/Bitmap.antt =====
-- include/ertl_core/bitmap.h: a bitmap is an unsigned long, 32 bits on the target.
pub mod Laws
use l4ertl.Base.{ℕ, ◌-◌, ◌*◌, ◌%◌, ◌^◌, bit_and, bit_or, word}

-- `1 << bit`, in 32 bits.
abbrev pub one_shl : ℕ → ℕ
one_shl bit = 2 ^ bit % word

-- `~x`, of 32 bits.
abbrev pub complement : ℕ → ℕ
complement x = word - 1 - x

unfoldable pub clearbitmap : ℕ
clearbitmap = 0

unfoldable pub setbitmap : ℕ
setbitmap = complement 0

unfoldable pub setbit : ℕ → ℕ → ℕ
setbit bitmap bit = bit_or bitmap (one_shl bit)

unfoldable pub clearbit : ℕ → ℕ → ℕ
clearbit bitmap bit = bit_and bitmap (complement (one_shl bit))

-- Nonzero is true.
unfoldable pub isbitset : ℕ → ℕ → ℕ
isbitset bitmap bit = bit_and bitmap (one_shl bit)
