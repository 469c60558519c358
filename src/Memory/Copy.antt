-- ===== src/Memory/Copy.antt =====
-- What the functions that write memory leave in it.
use l4ertl.Base.{
  inl, false, sym, true, ◌∙◌, ◌%◌, ◌==◌, fun_ext, ap, dec_lt, ℕ_discrete, update, zero, suc, ltb,
  arith, ◌-◌, ◌≡◌, ◌&&◌, ◌+◌, ◌⊎◌, leb, if◌then◌else◌, ◌≤◌, ℕ, Ptr,
}
use l4ertl.Memory.{set_bytes, memcpy, memmove, Memory, copy_down, Ptr, copy_up, memset}

-- The memory in which the `count` bytes from `dst` are those that stood from `src`.
abbrev pub copied : Ptr → Ptr → ℕ → Memory → Memory
copied dst src count m p = if leb dst p && ltb p (dst + count) then m (src + (p - dst)) else m p

pub copy_up-copied :
    (count dst src : ℕ) (m : Memory) (p : Ptr)
    → (dst ≤ src) ⊎ (src + count ≤ dst)
    → copy_up m dst src count p ≡ copied dst src count m p
unfolding copy_up
copy_up-copied zero dst src m p apart = ground arith
copy_up-copied (suc count) dst src m p apart =
    let later =
      copy_up-copied count (dst + 1) (src + 1) (update m dst (m src)) p (ground (arith, apart)) in
    elim (dec_lt dst p) [
      | yes above ↦
          let place : src + 1 + (p - (dst + 1)) ≡ src + (p - dst) = omega (arith, above) in
          ground (arith, later, apart, above, place, ap m place)
      | no below ↦ elim (ℕ_discrete p dst) [
        | yes here ↦
            let place : src + (p - dst) ≡ src = omega (arith, here) in
            ground (arith, later, here, place, ap m place)
        | no under ↦ ground (arith, later, below, under)
      ]
    ]

copy_down-copied :
    (count dst src : ℕ) (m : Memory) (p : Ptr)
    → src ≤ dst
    → copy_down m (dst + count - 1) (src + count - 1) count p ≡ copied dst src count m p
unfolding copy_down
copy_down-copied zero dst src m p above = ground arith
copy_down-copied (suc count) dst src m p above =
    let last_to : dst + suc count - 1 ≡ dst + count = omega arith in
    let last_from : src + suc count - 1 ≡ src + count = omega arith in
    let later = copy_down-copied count dst src (update m (dst + count) (m (src + count))) p above in
    rw (last_to, last_from)
      (elim (ℕ_discrete p (dst + count)) [
        | yes here ↦
            let place : src + (p - dst) ≡ src + count = omega (arith, here) in
            ground (arith, later, here, place, ap m place)
        | no other ↦ ground (arith, later, other, above)
      ])

-- For every destination and source, also if they overlap, `memmove` returns the destination and leaves
-- the memory in which the `count` bytes there are those that stood at the source before, and all
-- other bytes as they were.
pub memmove-copied :
    (dst src count : ℕ) (m : Memory) → memmove dst src count m ≡ (dst, copied dst src count m)
unfolding memmove
memmove-copied dst src count m = elim (ℕ_discrete src dst) [
  | yes same ↦
      let test : (src == dst) ≡ true = ground (arith, same) in
      rw test (
        ap (λ f. (dst, f))
          (fun_ext (λ p. elim (dec_lt p dst) [
            | yes below ↦ ground (arith, below)
            | no above ↦
                let place : src + (p - dst) ≡ p = omega (arith, same, above) in
                ground (arith, place, ap m place)
          ])))
  | no other ↦
      let test : (src == dst) ≡ false = ground (arith, other) in
      elim (dec_lt dst src) [
        | yes above ↦
            let up : ltb dst src ≡ true = ground (arith, above) in
            rw (test, up)
              (ap (λ f. (dst, f))
                (fun_ext (λ p. copy_up-copied count dst src m p (inl (omega (arith, above))))))
        | no below ↦
            let down : ltb dst src ≡ false = ground (arith, below) in
            rw (test, down)
              (ap (λ f. (dst, f))
                (fun_ext (λ p. copy_down-copied count dst src m p (omega (arith, below)))))
      ]
]

-- If the destination does not start inside the source, `memcpy` does what `memmove` does.
pub memcpy-memmove :
    (dst src count : ℕ) (m : Memory)
    → (dst ≤ src) ⊎ (src + count ≤ dst)
    → memcpy dst src count m ≡ memmove dst src count m
unfolding memcpy
memcpy-memmove dst src count m apart =
    ap (λ f. (dst, f)) (fun_ext (λ p. copy_up-copied count dst src m p apart))
    ∙ sym (memmove-copied dst src count m)

-- `memset` makes the `count` bytes from `dst` the low byte of `s`, and leaves all others.
pub memset-fills :
    (dst s count : ℕ) (m : Memory) (p : Ptr)
    → (memset dst s count m).1 p ≡ (if leb dst p && ltb p (dst + count) then s % 256 else m p)
unfolding memset set_bytes
memset-fills dst s zero m p = ground arith
memset-fills dst s (suc count) m p =
    let later = memset-fills (dst + 1) s count (update m dst (s % 256)) p in ground (arith, later)
