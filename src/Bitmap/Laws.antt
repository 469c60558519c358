-- ===== src/Bitmap/Laws.antt =====
-- A bitmap is the set of its bits.
use native.Mathlib.Nat.{mod-eq_of_lt, pow-le-pow_right}
use l4ertl.Base.{◌≤◌, ℕ, ◌^◌, ◌<◌, ◌≡◌, ◌↔◌, arith, true, false, not, ◌&&◌, ◌||◌, ◌==◌, word}
use l4ertl.Bits.{
  test_bit, test_bit-bit_or, test_bit-bit_and, test_bit-pow, test_bit-complement, bit_or-lt,
  bit_and-le, test_bit-zero, eq-zero_of_test_bit,
}
use l4ertl.Bitmap.{one_shl, complement, clearbitmap, setbitmap, setbit, clearbit, isbitset}

pow-lt-word : (i : ℕ) → i < 32 → 2 ^ i < word
pow-lt-word i h =
    omega (arith, pow-le-pow_right {n = 2} (omega arith) {i = i} {j = 31} (omega arith))

pub one_shl-eq : (i : ℕ) → i < 32 → one_shl i ≡ 2 ^ i
one_shl-eq i h = mod-eq_of_lt (pow-lt-word i h)

pub test_bit-clearbitmap : (i : ℕ) → test_bit clearbitmap i ≡ false
unfolding clearbitmap
test_bit-clearbitmap i = test_bit-zero i

pub test_bit-setbitmap : (i : ℕ) → i < 32 → test_bit setbitmap i ≡ true
unfolding setbitmap
test_bit-setbitmap i h = rw (test_bit-complement 32 i 0 (omega arith) h, test_bit-zero i)

module _ (bitmap bit : ℕ) (fits : bit < 32) where
  pub test_bit-setbit : (i : ℕ) → test_bit (setbit bitmap bit) i ≡ (test_bit bitmap i || bit == i)
  unfolding setbit
  test_bit-setbit i =
      rw (one_shl-eq bit fits, test_bit-bit_or i bitmap (2 ^ bit), test_bit-pow bit i)

  pub test_bit-clearbit :
      (i : ℕ) → i < 32 → test_bit (clearbit bitmap bit) i ≡ (test_bit bitmap i && not (bit == i))
  unfolding clearbit
  test_bit-clearbit i h = rw (
    one_shl-eq bit fits,
    test_bit-bit_and i bitmap (complement (2 ^ bit)),
    test_bit-complement 32 i (2 ^ bit) (pow-lt-word bit fits) h,
    test_bit-pow bit i,
  )

  pub setbit-lt : bitmap < word → setbit bitmap bit < word
  unfolding setbit
  setbit-lt h =
      bit_or-lt 32 bitmap (one_shl bit) h (rw (one_shl-eq bit fits) (pow-lt-word bit fits))

  pub clearbit-lt : bitmap < word → clearbit bitmap bit < word
  unfolding clearbit
  clearbit-lt h = omega (arith, bit_and-le bitmap (complement (one_shl bit)))

  pub clearbit-le : clearbit bitmap bit ≤ bitmap
  unfolding clearbit
  clearbit-le = bit_and-le bitmap (complement (one_shl bit))

  single : (i : ℕ) → test_bit (isbitset bitmap bit) i ≡ (test_bit bitmap i && bit == i)
  unfolding isbitset
  single i = rw (one_shl-eq bit fits, test_bit-bit_and i bitmap (2 ^ bit), test_bit-pow bit i)

  -- `isbitset` is nonzero exactly when the bit is in the bitmap.
  pub isbitset-eq-zero_iff :
      bitmap < word → (isbitset bitmap bit ≡ 0) ↔ (test_bit bitmap bit ≡ false)
  isbitset-eq-zero_iff h = (
    λ e. ground (arith, single bit, test_bit-zero bit, e),
    λ e. eq-zero_of_test_bit 32 (isbitset bitmap bit) small λ i l. ground (arith, single i),
  )
    where
      small : isbitset bitmap bit < word
      small = unfold isbitset in omega (arith, bit_and-le bitmap (one_shl bit))

-- The bitmap as a set: after `setbit` and `clearbit` of a bit below 32, the members are the old
-- ones with that bit added, or taken out, the value still fits 32 bits, and `isbitset` tells
-- membership.
pub bitmap_set :
    (bitmap bit : ℕ)
    → bit < 32
    → bitmap < word
    → ((i : ℕ) → test_bit (setbit bitmap bit) i ≡ (test_bit bitmap i || bit == i))
      × ((i : ℕ)
          → i < 32
          → test_bit (clearbit bitmap bit) i ≡ (test_bit bitmap i && not (bit == i)))
      × ((isbitset bitmap bit ≡ 0) ↔ (test_bit bitmap bit ≡ false))
      × (setbit bitmap bit < word)
      × (clearbit bitmap bit < word)
bitmap_set bitmap bit fits small = (
  test_bit-setbit bitmap bit fits,
  test_bit-clearbit bitmap bit fits,
  isbitset-eq-zero_iff bitmap bit fits small,
  setbit-lt bitmap bit fits small,
  clearbit-lt bitmap bit fits small,
)
