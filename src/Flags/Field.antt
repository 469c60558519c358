-- ===== src/Flags/Field.antt =====
-- Fields of a word: writing one leaves every other that shares no bit with it.
use l4ertl.Base.{
  subst, dec_lt, zero, ◌≤◌, ◌||◌, not, false, suc, word, true, ◌≡◌, ◌&&◌, arith, bit_and, ◌<◌, Bool,
  ℕ,
}
use l4ertl.Bits.{
  bit_and-le_mask, eq_of_test_bit, test_bit, test_bit-bit_and, test_bit-bit_or, test_bit-complement,
  bit_or-lt, bit_and-le,
}
use l4ertl.Bitmap.{complement}
use l4ertl.Flags.{ℕ, set_field}

-- Every bit of `a` is one of `b`; no bit is in both.
abbrev pub IsWithin : ℕ → ℕ → Type 0
IsWithin a b = (i : ℕ) → i < 32 → (test_bit a i && not (test_bit b i)) ≡ false

abbrev pub IsDisjoint : ℕ → ℕ → Type 0
IsDisjoint a b = (i : ℕ) → i < 32 → (test_bit a i && test_bit b i) ≡ false

-- Whether a test holds of every number below a bound, by evaluation.
unfoldable pub passes : (ℕ → Bool) → ℕ → Bool
passes test zero = true
passes test (suc last) = passes test last && test last

pub passes-test :
    (test : ℕ → Bool) (bound : ℕ) → passes test bound ≡ true → (i : ℕ) → i < bound → test i ≡ true
unfolding passes
passes-test test zero all i small = absurd (omega (arith, small))
passes-test test (suc last) all i small = elim (dec_lt i last) [
  | yes below ↦ passes-test test last (ground (arith, all)) i below
  | no at ↦
      let exact : last ≡ i = omega (arith, at, small) in
      subst (λ (n : ℕ). test n ≡ true) exact (ground (arith, all))
]

pub Within-bit_and : (a b : ℕ) → IsWithin (bit_and a b) b
Within-bit_and a b i h = ground (arith, test_bit-bit_and i a b)

module _ (flags mask value : ℕ) (hm : mask < word) (hv : value < word) where
  test_bit-set_field :
      (i : ℕ)
      → i < 32
      → test_bit (set_field flags mask value) i
        ≡ (test_bit flags i && not (test_bit mask i) || test_bit value i)
  unfolding set_field
  test_bit-set_field i h = rw (
    test_bit-bit_or i (bit_and flags (complement mask)) value,
    test_bit-bit_and i flags (complement mask),
    test_bit-complement 32 i mask hm h,
  )

  pub field-same : IsWithin value mask → bit_and (set_field flags mask value) mask ≡ value
  field-same within =
      eq_of_test_bit 32 _ value (omega (arith, bit_and-le _ mask, bit_and-le_right)) hv λ i h.
        ground (
          arith,
          test_bit-bit_and i (set_field flags mask value) mask,
          test_bit-set_field i h,
          within i h,
        )
    where
      bit_and-le_right : bit_and (set_field flags mask value) mask ≤ mask
      bit_and-le_right = bit_and-le_mask (set_field flags mask value) mask

  pub field-other :
      (other : ℕ)
      → other < word
      → IsWithin value mask
      → IsDisjoint mask other
      → bit_and (set_field flags mask value) other ≡ bit_and flags other
  field-other other ho within apart =
      eq_of_test_bit 32 _ _ (omega (arith, bit_and-le_mask (set_field flags mask value) other))
        (omega (arith, bit_and-le_mask flags other))
        λ i h. ground (
          arith,
          test_bit-bit_and i (set_field flags mask value) other,
          test_bit-bit_and i flags other,
          test_bit-set_field i h,
          within i h,
          apart i h,
        )

  pub field-lt : flags < word → set_field flags mask value < word
  unfolding set_field
  field-lt hf = bit_or-lt 32 _ value (omega (arith, bit_and-le flags (complement mask))) hv
