-- ===== src/Format.antt =====
-- The conversions of numbers to strings of server/core/libc/stdarg.c. The loop writes from the end of the
-- array towards its start, and is by recursion on the places that are left.
pub mod RoundTrip
use l4ertl.Base.{
  ℕ, zero, suc, Ptr, Bool, ◌+◌, ◌-◌, ◌%◌, ◌/◌, ◌==◌, ◌||◌, ltb, if◌then◌else◌, update,
}
use l4ertl.Memory.{Memory, memmove}

-- `tmp`, `j` and the memory after the loop.
pub record Written : Type 0 where
  pub tmp : Ptr
  pub j : ℕ
  pub memory : Memory

-- What is stored in `*tmp`, kept in a char.
unfoldable pub digit_char : ℕ → ℕ → Bool → ℕ
digit_char i base up_case =
    let c = (i % base + 48) % 256 in
    if ltb 57 c then (c + (if up_case then 65 else 97) - 57 - 1) % 256 else c

-- The loop, for `tmp` at `s + left`.
unfoldable pub write_digits : ℕ → Ptr → ℕ → ℕ → Bool → ℕ → Memory → Written
unfolding digit_char
write_digits zero s i base up_case j m = record { tmp = s; j = j; memory = m }
write_digits (suc left) s i base up_case j m =
    let rest =
      write_digits left s (i / base) base up_case (j + 1)
        (update m (s + left) (digit_char i base up_case)) in
    if i == 0 then record { tmp = s + suc left; j = j; memory = m } else rest

-- `if ((base == 0) || (base > 36)) base = 10`
abbrev pub used_base : ℕ → ℕ
used_base base = if base == 0 || ltb 36 base then 10 else base

-- The array has `size` bytes, at least one, and two for the number 0.
unfoldable pub ltostr : Ptr → ℕ → ℕ → ℕ → Bool → Memory → ℕ × Memory
unfolding write_digits memmove
ltostr s size i base up_case m =
    let tmp = s + (size - 1) in
    let m1 = update m tmp 0 in
    let w =
      if i == 0
      then record { tmp = tmp - 1; j = 1; memory = update m1 (tmp - 1) 48 }
      else write_digits (size - 1) s i (used_base base) up_case 0 m1 in
    (w.j, (memmove s w.tmp (w.j + 1) w.memory).1)
