-- ===== src/BitOp.antt =====
-- include/ertl_core/bitop.h: `_ffs` and `_fls`, the least and the highest bit of an int that is set.
-- An int is its pattern of 32 bits; the target defines none of the ARCH_HAS_... macros, so these
-- versions are compiled.
pub mod Lowest
use l4ertl.Base.{◌%◌, ℕ, ◌+◌, ◌-◌, ◌*◌, ◌/◌, ◌^◌, bit_and, word, ltb, ◌==◌, if◌then◌else◌}

-- `x >> k` of an int: the sign fills the bits that come in.
pub asr : ℕ → ℕ → ℕ
asr x k = if ltb x (2 ^ 31) then x / 2 ^ k else x / 2 ^ k + (word - 2 ^ (32 - k))

-- -1
abbrev pub minus_one : ℕ
minus_one = word - 1

-- The two variables of `_ffs` and `_fls`.
pub record Scan : Type 0 where
  pub x : ℕ
  pub r : ℕ

-- `if (!(x & mask)) { x >>= k; r += k; }`
unfoldable pub skip : ℕ → ℕ → Scan → Scan
skip mask k s = if bit_and s.x mask == 0 then record { x = asr s.x k; r = s.r + k } else s

unfoldable pub ffs : ℕ → ℕ
unfolding skip asr
ffs x =
    if x == 0
    then minus_one
    else (skip 0x1 1
        (skip 0x3 2 (skip 0xf 4 (skip 0xff 8 (skip 0xffff 16 (record { x = x; r = 0 })))))).r

-- `if (!(x & mask)) { x <<= k; r -= k; }`
unfoldable pub skip_up : ℕ → ℕ → Scan → Scan
skip_up mask k s =
    if bit_and s.x mask == 0 then record { x = s.x * 2 ^ k % word; r = s.r - k } else s

unfoldable pub fls : ℕ → ℕ
unfolding skip_up
fls x =
    if x == 0
    then minus_one
    else (skip_up 0x8000_0000 1 (
        skip_up 0xc000_0000 2 (
          skip_up 0xf000_0000 4
            (skip_up 0xff00_0000 8 (skip_up 0xffff_0000 16 (record { x = x; r = 31 })))))).r
