-- ===== src/Memory.antt =====
-- The functions on memory of server/core/libc/string.c. Memory is a map from addresses to bytes. A
-- pointer that is moved stays in its array, so no wrap-around is written for it; a char is a number
-- below 256, as it is on ARM. The loops are by recursion on the count.
pub mod Copy
use l4ertl.Base.{zero, ltb, word, ◌%◌, ◌-◌, ◌==◌, update, ◌+◌, if◌then◌else◌, suc, Ptr, ℕ}

abbrev pub Memory : Type 0
Memory = Ptr → ℕ

-- `*a++ = s`, `count` times
unfoldable pub set_bytes : Memory → Ptr → ℕ → ℕ → Memory
set_bytes m a s zero = m
set_bytes m a s (suc count) = set_bytes (update m a (s % 256)) (a + 1) s count

-- What is returned, and the memory.
unfoldable pub memset : Ptr → ℕ → ℕ → Memory → Ptr × Memory
unfolding set_bytes
memset dst s count m = (dst, set_bytes m dst s count)

-- `*d = *s; ++d; ++s`, `count` times
unfoldable pub copy_up : Memory → Ptr → Ptr → ℕ → Memory
copy_up m d s zero = m
copy_up m d s (suc count) = copy_up (update m d (m s)) (d + 1) (s + 1) count

-- `*a-- = *b--`, `count` times
unfoldable pub copy_down : Memory → Ptr → Ptr → ℕ → Memory
copy_down m a b zero = m
copy_down m a b (suc count) = copy_down (update m a (m b)) (a - 1) (b - 1) count

unfoldable pub memcpy : Ptr → Ptr → ℕ → Memory → Ptr × Memory
unfolding copy_up
memcpy dst src count m = (dst, copy_up m dst src count)

unfoldable pub memmove : Ptr → Ptr → ℕ → Memory → Ptr × Memory
unfolding copy_up copy_down
memmove dst src count m =
    if src == dst
    then (dst, m)
    else if ltb dst src
    then (dst, copy_up m dst src count)
    else (dst, copy_down m (dst + count - 1) (src + count - 1) count)

-- The first difference of two bytes, as an int.
unfoldable pub memcmp : Memory → Ptr → Ptr → ℕ → ℕ
memcmp m d s zero = 0
memcmp m d s (suc count) =
    let rest = memcmp m (d + 1) (s + 1) count in
    if m d == m s then rest else (m d + word - m s) % word
