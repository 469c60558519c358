-- ===== src/BitOp/Lowest.antt =====
-- `_ffs` finds the lowest bit.
use l4ertl.Base.{
  ℕ, ◌+◌, ◌*◌, ◌/◌, ◌%◌, ◌^◌, ◌<◌, ◌≤◌, ◌≡◌, ◌≢◌, arith, true, false, word, ap, sym, subst, ◌∙◌,
  zero, suc, Bool-cases, ◌==◌, inl, inr, bit_and, refl,
}
use native.Mathlib.Nat.{pow-suc, zero-add, suc-add, mod-eq_of_lt}
use l4ertl.Bits.{test_bit, bit_and-mask, test_bit-shifted}
use l4ertl.BitOp.{minus_one, Scan, skip, asr, ffs}

pow-add : (a b : ℕ) → 2 ^ (a + b) ≡ 2 ^ a * 2 ^ b
pow-add zero b = ground (arith, ap (λ (t : ℕ). 2 ^ t) (zero-add b))
pow-add (suc a) b = omega (
  arith,
  ap (λ (t : ℕ). 2 ^ t) (suc-add a b),
  pow-suc 2 (a + b),
  pow-suc 2 a,
  pow-add a b,
  ap (λ (t : ℕ). t * 2 ^ b) (pow-suc 2 a),
)

-- `x` is a multiple `z` of `2 ^ r`, and the low `w` bits of the variable are those of `z`, not all 0.
record IsScan (x w : ℕ) (s : Scan) : Type 0 where
  z : ℕ
  whole : x ≡ z * 2 ^ s.r
  same : s.x % 2 ^ w ≡ z % 2 ^ w
  some_set : s.x % 2 ^ w ≢ 0
  small : s.x < word
  room : s.r + w ≤ 32

-- Shifting out `k` zeros keeps the product.
shifted : {x : ℕ} (z k r : ℕ) → x ≡ z * 2 ^ r → z ≡ z / 2 ^ k * 2 ^ k → x ≡ z / 2 ^ k * 2 ^ (r + k)
shifted z k r whole low = omega (
  arith,
  whole,
  pow-add r k,
  ap (λ (t : ℕ). t * 2 ^ r) low,
  ap (λ (t : ℕ). z / 2 ^ k * t) (pow-add r k),
)

-- One `if` of `_ffs`, for the shift `k` and the window `2 * k`.
skip_16 : {x : ℕ} {s : Scan} → IsScan x 32 s → IsScan x 16 (skip 0xffff 16 s)
unfolding skip asr
skip_16 {s} v = elim (Bool-cases (bit_and s.x 0xffff == 0)) [
  | inl e ↦
      let low : s.x % 2 ^ 16 ≡ 0 = ground (arith, bit_and-mask 16 s.x) in
      rw e (record {
        z = v.z / 2 ^ 16;
        whole = shifted v.z 16 s.r v.whole (omega arith);
        same = ground arith;
        some_set = ground arith;
        small = ground arith;
        room = omega arith;
      })
  | inr e ↦ rw e (record {
    z = v.z;
    whole = v.whole;
    same = omega arith;
    some_set = ground (arith, bit_and-mask 16 s.x);
    small = v.small;
    room = omega arith;
  })
]

skip_8 : {x : ℕ} {s : Scan} → IsScan x 16 s → IsScan x 8 (skip 0xff 8 s)
unfolding skip asr
skip_8 {s} v = elim (Bool-cases (bit_and s.x 0xff == 0)) [
  | inl e ↦
      let low : s.x % 2 ^ 8 ≡ 0 = ground (arith, bit_and-mask 8 s.x) in
      rw e (record {
        z = v.z / 2 ^ 8;
        whole = shifted v.z 8 s.r v.whole (omega arith);
        same = ground arith;
        some_set = ground arith;
        small = ground arith;
        room = omega arith;
      })
  | inr e ↦ rw e (record {
    z = v.z;
    whole = v.whole;
    same = omega arith;
    some_set = ground (arith, bit_and-mask 8 s.x);
    small = v.small;
    room = omega arith;
  })
]

skip_4 : {x : ℕ} {s : Scan} → IsScan x 8 s → IsScan x 4 (skip 0xf 4 s)
unfolding skip asr
skip_4 {s} v = elim (Bool-cases (bit_and s.x 0xf == 0)) [
  | inl e ↦
      let low : s.x % 2 ^ 4 ≡ 0 = ground (arith, bit_and-mask 4 s.x) in
      rw e (record {
        z = v.z / 2 ^ 4;
        whole = shifted v.z 4 s.r v.whole (omega arith);
        same = ground arith;
        some_set = ground arith;
        small = ground arith;
        room = omega arith;
      })
  | inr e ↦ rw e (record {
    z = v.z;
    whole = v.whole;
    same = omega arith;
    some_set = ground (arith, bit_and-mask 4 s.x);
    small = v.small;
    room = omega arith;
  })
]

skip_2 : {x : ℕ} {s : Scan} → IsScan x 4 s → IsScan x 2 (skip 0x3 2 s)
unfolding skip asr
skip_2 {s} v = elim (Bool-cases (bit_and s.x 0x3 == 0)) [
  | inl e ↦
      let low : s.x % 2 ^ 2 ≡ 0 = ground (arith, bit_and-mask 2 s.x) in
      rw e (record {
        z = v.z / 2 ^ 2;
        whole = shifted v.z 2 s.r v.whole (omega arith);
        same = ground arith;
        some_set = ground arith;
        small = ground arith;
        room = omega arith;
      })
  | inr e ↦ rw e (record {
    z = v.z;
    whole = v.whole;
    same = omega arith;
    some_set = ground (arith, bit_and-mask 2 s.x);
    small = v.small;
    room = omega arith;
  })
]

skip_1 : {x : ℕ} {s : Scan} → IsScan x 2 s → IsScan x 1 (skip 0x1 1 s)
unfolding skip asr
skip_1 {s} v = elim (Bool-cases (bit_and s.x 0x1 == 0)) [
  | inl e ↦
      let low : s.x % 2 ^ 1 ≡ 0 = ground (arith, bit_and-mask 1 s.x) in
      rw e (record {
        z = v.z / 2 ^ 1;
        whole = shifted v.z 1 s.r v.whole (omega arith);
        same = ground arith;
        some_set = ground arith;
        small = ground arith;
        room = omega arith;
      })
  | inr e ↦ rw e (record {
    z = v.z;
    whole = v.whole;
    same = omega arith;
    some_set = ground (arith, bit_and-mask 1 s.x);
    small = v.small;
    room = omega arith;
  })
]

ffs-IsScan : (x : ℕ) → x ≢ 0 → x < word → (s : Scan) × (ffs x ≡ s.r) × IsScan x 1 s
unfolding ffs
ffs-IsScan x ne small =
    let start : IsScan x 32 (record { x = x; r = 0 }) = record {
      z = x;
      whole = omega arith;
      same = refl;
      some_set = ground (arith, mod-eq_of_lt small);
      small = small;
      room = omega arith;
    } in
    (_, ground arith, skip_1 (skip_2 (skip_4 (skip_8 (skip_16 start)))))

scan-lowest :
    {x : ℕ} {s : Scan}
    → IsScan x 1 s
    → (s.r < 32) × (test_bit x s.r ≡ true) × ((j : ℕ) → j < s.r → test_bit x j ≡ false)
scan-lowest {s} v = (
  omega (arith, v.room),
  ap (λ (t : ℕ). test_bit t s.r) v.whole
      ∙ ground (arith, v.same, v.some_set, test_bit-shifted s.r v.z s.r),
  λ j l. ap (λ (t : ℕ). test_bit t j) v.whole ∙ ground (arith, test_bit-shifted s.r v.z j),
)

-- `_ffs` of a nonzero int is the position of its lowest bit: a bit below 32 that is set, with none
-- set below it.
pub ffs-lowest :
    (x : ℕ)
    → x ≢ 0
    → x < word
    → (ffs x < 32) × (test_bit x (ffs x) ≡ true) × ((j : ℕ) → j < ffs x → test_bit x j ≡ false)
ffs-lowest x ne small =
    let (s, at, v) = ffs-IsScan x ne small in
    subst (λ r. (r < 32) × (test_bit x r ≡ true) × ((j : ℕ) → j < r → test_bit x j ≡ false))
      (sym at) (scan-lowest v)

-- `_ffs (0)` is -1.
pub ffs-zero : ffs 0 ≡ minus_one
unfolding ffs
ffs-zero = refl
