-- ===== src/Strings.antt =====
-- The functions on strings of server/core/libc/string.c. A string is the address of bytes of which the
-- first zero ends it. A loop that runs to the end of a string has fuel, of which one more than the
-- length is enough; `none` is fuel that ran out. Those that return their first argument give the memory.
pub mod Laws
use l4ertl.Base.{
  ◌-◌, zero, ◌||◌, ◌&&◌, word, ltb, some, ◌==◌, not, ◌%◌, ◌+◌, none, update, if◌then◌else◌, Option,
  null, Ptr, ℕ,
}
use Prim.Native.Nat.{suc, ℕ}
use l4ertl.Memory.{memcmp, Memory}

-- The loop of `strlen`.
unfoldable pub count_bytes : ℕ → Memory → Ptr → Option ℕ
count_bytes zero m s = none
count_bytes (suc fuel) m s =
    let rest = count_bytes fuel m (s + 1) in
    if m s == 0 then some 0 else elim rest [ none ↦ none | some n ↦ some (n + 1) ]

unfoldable pub strlen : ℕ → Memory → Ptr → Option ℕ
unfolding count_bytes
strlen fuel m s = if s == null then some 0 else count_bytes fuel m s

-- `*aux++ = *src++` up to the zero.
unfoldable pub strcpy : ℕ → Ptr → Ptr → Memory → Option Memory
strcpy zero dst src m = none
strcpy (suc fuel) dst src m =
    let m1 = update m dst (m src) in
    let rest = strcpy fuel (dst + 1) (src + 1) m1 in if m src == 0 then some m1 else rest

-- At most `n` bytes; the count of an int that is negative is 0 here.
unfoldable pub strncpy : ℕ → Ptr → Ptr → Memory → Memory
strncpy zero dst src m = m
strncpy (suc n) dst src m =
    let m1 = update m dst (m src) in
    let rest = strncpy n (dst + 1) (src + 1) m1 in if m src == 0 then m1 else rest

unfoldable pub strcat : ℕ → Ptr → Ptr → Memory → Option Memory
unfolding strlen strcpy
strcat fuel s t m = elim (strlen fuel m s) [ none ↦ none | some n ↦ strcpy fuel (s + n) t m ]

-- The difference of the first two bytes that differ, as an int.
unfoldable pub strcmp : ℕ → Memory → Ptr → Ptr → Option ℕ
strcmp zero m s t = none
strcmp (suc fuel) m s t =
    let rest = strcmp fuel m (s + 1) (t + 1) in
    if not (m s == m t) || m s == 0 then some ((m s + word - m t) % word) else rest

unfoldable pub strncmp : ℕ → Memory → Ptr → Ptr → ℕ
strncmp zero m a b = 0
strncmp (suc n) m a b =
    let rest = strncmp n m (a + 1) (b + 1) in
    if not (m a == m b) then (m a + word - m b) % word else if m a == 0 then 0 else rest

-- The loop of `strrchr`, with the place found so far.
unfoldable pub last_of : ℕ → Memory → ℕ → Ptr → Ptr → Option Ptr
last_of zero m ch l t = none
last_of (suc fuel) m ch l t =
    let l1 = if m t == ch then t else l in
    let rest = last_of fuel m ch l1 (t + 1) in if m t == 0 then some l1 else rest

unfoldable pub strrchr : ℕ → Memory → Ptr → ℕ → Option Ptr
unfolding last_of
strrchr fuel m t c = last_of fuel m (c % 256) null t

-- The loop of `strchr`.
unfoldable pub first_of : ℕ → Memory → ℕ → Ptr → Option Ptr
first_of zero m ch t = none
first_of (suc fuel) m ch t =
    let rest = first_of fuel m ch (t + 1) in
    if m t == ch then some t else if m t == 0 then some null else rest

unfoldable pub strchr : ℕ → Memory → Ptr → ℕ → Option Ptr
unfolding first_of
strchr fuel m t c = first_of fuel m (c % 256) t

-- The loop of `strstr` over the `i` places left.
unfoldable pub find_needle : Memory → Ptr → Ptr → ℕ → ℕ → Ptr
unfolding memcmp
find_needle m haystack needle nl zero = null
find_needle m haystack needle nl (suc i) =
    let rest = find_needle m (haystack + 1) needle nl i in
    if m haystack == m needle && memcmp m haystack needle nl == 0 then haystack else rest

unfoldable pub strstr : ℕ → Memory → Ptr → Ptr → Option Ptr
unfolding strlen find_needle
strstr fuel m haystack needle = elim (strlen fuel m needle) [
  | none ↦ none
  | some nl ↦ elim (strlen fuel m haystack) [
    | none ↦ none
    | some hl ↦ some (
        if nl == 0
        then haystack
        else if ltb hl nl
        then null
        else find_needle m haystack needle nl (hl - nl + 1))
  ]
]
