-- ===== src/Convert.antt =====
-- The tests on characters of include/ertl_core/ctype.h and the conversions of
-- server/core/libc/stdlib.c. A char is a number below 256; what is returned is a word. The loops have
-- fuel, of which one more than the length of the string is enough; `none` is fuel that ran out.
pub mod Value
pub mod Decimal
use l4ertl.Base.{
  int_ltb, zero, not, false, true, word, ◌&&◌, some, ◌*◌, ◌-◌, ◌+◌, leb, none, ◌==◌, ◌^◌, ◌%◌,
  bit_or, ◌/◌, ltb, if◌then◌else◌, Option, ◌||◌, Bool, ℕ, Ptr,
}
use Prim.Native.Nat.{suc, bit_or, ℕ}
use l4ertl.Memory.{Memory}

-- `(unsigned int) (ch - low) < count`
abbrev pub in_range : ℕ → ℕ → ℕ → Bool
in_range ch low count = ltb ((ch + word - low) % word) count

unfoldable pub isdigit : ℕ → Bool
isdigit ch = in_range ch 48 10

unfoldable pub isspace : ℕ → Bool
isspace ch = in_range ch 9 5 || ch == 32

unfoldable pub isxdigit : ℕ → Bool
isxdigit ch = in_range ch 48 10 || in_range (bit_or ch 0x20) 97 6

unfoldable pub isalnum : ℕ → Bool
isalnum ch = in_range (bit_or ch 0x20) 97 26 || in_range ch 48 10

-- `while (isspace (*nptr)) ++nptr`
unfoldable pub skip_spaces : ℕ → Memory → Ptr → Option Ptr
unfolding isspace
skip_spaces zero m p = none
skip_spaces (suc fuel) m p =
    let rest = skip_spaces fuel m (p + 1) in if isspace (m p) then rest else some p

-- The digit that a character stands for, kept in an unsigned char.
unfoldable pub digit_of : ℕ → ℕ
digit_of c =
    if leb 97 c
    then (c - 97 + 10) % 256
    else if leb 65 c
    then (c - 65 + 10) % 256
    else if leb c 57
    then (c + 256 - 48) % 256
    else 0xff

-- The value, whether it has overflowed, and the place, where the loop over the digits stops.
pub record Digits : Type 0 where
  pub v : ℕ
  pub overflow : Bool
  pub nptr : Ptr

abbrev pub ulong_max : ℕ
ulong_max = 2 ^ 32 - 1

-- The low part `x` and the high part `w` of the value with a further digit.
abbrev pub low_part : ℕ → ℕ → ℕ → ℕ
low_part base v c = (v % 256 * base + c) % word

abbrev pub high_part : ℕ → ℕ → ℕ → ℕ
high_part base v c = (v / 256 * base + low_part base v c / 256) % word

-- The loop over the digits.
unfoldable pub digits : ℕ → Memory → ℕ → Digits → Option Digits
unfolding digit_of
digits zero m base d = none
digits (suc fuel) m base d =
    let c = digit_of (m d.nptr) in
    let w = high_part base d.v c in
    let rest = digits fuel m base (record {
      v = (w * 256 + low_part base d.v c % 256) % word;
      overflow = d.overflow || ltb (ulong_max / 256) w;
      nptr = d.nptr + 1;
    }) in
    if m d.nptr == 0 then some d else if not (int_ltb c base) then some d else rest

-- The base and the place after the label `skip0x`.
unfoldable pub skip0x : Memory → ℕ → Ptr → ℕ × Ptr
unfolding isxdigit
skip0x m base p =
    if (m (p + 1) == 120 || m (p + 1) == 88) && isxdigit (m (p + 2)) then (16, p + 2) else (base, p)

-- The base and the place from which the digits are read; `none` for a base that there is not.
unfoldable pub base_of : Memory → ℕ → Ptr → Option (ℕ × Ptr)
unfolding skip0x
base_of m base p =
    if base == 16 && m p == 48
    then some (skip0x m base p)
    else if not (base == 0)
    then (if ltb 34 ((base + word - 2) % word) then none else some (base, p))
    else if m p == 48
    then some (skip0x m 8 p)
    else some (10, p)

-- What is returned and what `*endptr` holds; `none` if `endptr` is NULL.
pub record Converted : Type 0 where
  pub value : ℕ
  pub endptr : Option Ptr

-- What follows the loop, for the start `orig` of the digits, the start `ptr` of the string and the sign.
unfoldable pub finish : Ptr → Ptr → Bool → Option Ptr → Digits → Converted
finish orig ptr neg endptr d =
    let nothing = d.nptr == orig in
    let v = if nothing then 0 else d.v in
    record {
      value = if d.overflow then ulong_max else if neg then (word - v) % word else v;
      endptr = elim endptr [ none ↦ none | some _ ↦ some (if nothing then ptr else d.nptr) ];
    }

-- What follows the sign, at `orig`.
unfoldable pub unsigned_part : ℕ → Memory → Ptr → Option Ptr → ℕ → Bool → Ptr → Option Converted
unfolding base_of digits finish
unsigned_part fuel m ptr endptr base neg orig = elim (base_of m base orig) [
  | none ↦ some (record { value = 0; endptr = endptr })
  | some start ↦ elim (digits fuel m start.0 (record { v = 0; overflow = false; nptr = start.1 })) [
    | none ↦ none
    | some d ↦ some (finish orig ptr neg endptr d)
  ]
]

-- `endptr` is what `*endptr` held before.
unfoldable pub strtoul : ℕ → Memory → Ptr → Option Ptr → ℕ → Option Converted
unfolding skip_spaces unsigned_part
strtoul fuel m ptr endptr base = elim (skip_spaces fuel m ptr) [
  | none ↦ none
  | some nptr ↦
      if m nptr == 45
      then unsigned_part fuel m ptr endptr base true (nptr + 1)
      else if m nptr == 43
      then unsigned_part fuel m ptr endptr base false (nptr + 1)
      else unsigned_part fuel m ptr endptr base false nptr
]

abbrev pub abs_long_min : ℕ
abs_long_min = 2147483648

-- The value of a long from that of `strtoul` and the sign.
unfoldable pub to_long : Bool → ℕ → ℕ
to_long neg v =
    if leb abs_long_min v
    then (if v == abs_long_min && neg then v else if neg then 2 ^ 31 else 2 ^ 31 - 1)
    else if neg
    then (word - v) % word
    else v

-- What follows the sign, at `nptr`; the string starts at `orig`.
unfoldable pub signed_part : ℕ → Memory → Ptr → Option Ptr → ℕ → Bool → Ptr → Option Converted
unfolding strtoul to_long
signed_part fuel m orig endptr base neg nptr = elim (strtoul fuel m nptr endptr base) [
  | none ↦ none
  | some c ↦ some (record {
    value = to_long neg c.value;
    endptr = elim c.endptr [ none ↦ none | some at ↦ some (if at == nptr then orig else at) ];
  })
]

unfoldable pub strtol : ℕ → Memory → Ptr → Option Ptr → ℕ → Option Converted
unfolding skip_spaces signed_part isalnum
strtol fuel m orig endptr base = elim (skip_spaces fuel m orig) [
  | none ↦ none
  | some nptr ↦
      if m nptr == 45 && isalnum (m (nptr + 1))
      then signed_part fuel m orig endptr base true (nptr + 1)
      else signed_part fuel m orig endptr base false nptr
]
