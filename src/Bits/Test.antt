-- ===== src/Bits/Test.antt =====
-- The bits of a number, and how the bit operations act on each of them.
use Prim.Native.Nat.{bit_and-bitwise}
use native.Mathlib.Nat.{pow-suc, one-le-pow, div-div-eq-div-mul}
use l4ertl.Base.{
  ℕ, zero, suc, ◌-◌, ◌*◌, ◌/◌, ◌%◌, ◌^◌, ◌≤◌, ◌<◌, ◌≡◌, refl, ap, sym, ◌∙◌, bit_and, bit_or, arith,
  Bool, false, not, ◌&&◌, ◌||◌, ◌==◌, if◌then◌else◌,
}
use l4ertl.Bits.Step.{bit_or_step, bit_and_step}

-- Bit `i` of a number.
unfoldable pub test_bit : ℕ → ℕ → Bool
test_bit n zero = n % 2 == 1
test_bit n (suc i) = test_bit (n / 2) i

low_digit : (a : ℕ) → (a % 2 ≡ 0) → (a % 2 == 1) ≡ false
low_digit a h = ground arith

pub test_bit-bit_or : (i a b : ℕ) → test_bit (bit_or a b) i ≡ (test_bit a i || test_bit b i)
unfolding test_bit
test_bit-bit_or zero a b = ground (arith, bit_or_step a b)
test_bit-bit_or (suc i) a b = rw halves (test_bit-bit_or i (a / 2) (b / 2))
  where
    halves : bit_or a b / 2 ≡ bit_or (a / 2) (b / 2)
    halves = omega (arith, bit_or_step a b)

pub test_bit-bit_and : (i a b : ℕ) → test_bit (bit_and a b) i ≡ (test_bit a i && test_bit b i)
unfolding test_bit
test_bit-bit_and zero a b = ground (arith, bit_and_step a b)
test_bit-bit_and (suc i) a b = rw halves (test_bit-bit_and i (a / 2) (b / 2))
  where
    halves : bit_and a b / 2 ≡ bit_and (a / 2) (b / 2)
    halves = omega (arith, bit_and_step a b)

pub test_bit-zero : (i : ℕ) → test_bit 0 i ≡ false
unfolding test_bit
test_bit-zero zero = refl
test_bit-zero (suc i) = test_bit-zero i

-- A power of two has its own bit and no other.
pub test_bit-pow : (b i : ℕ) → test_bit (2 ^ b) i ≡ (b == i)
unfolding test_bit
test_bit-pow zero zero = refl
test_bit-pow zero (suc i) = ground (arith, test_bit-zero i)
test_bit-pow (suc b) zero = ground (arith, pow-suc 2 b)
test_bit-pow (suc b) (suc i) = ground (arith, halves, test_bit-pow b i)
  where
    halves : test_bit (2 ^ suc b / 2) i ≡ test_bit (2 ^ b) i
    halves = ap (λ (t : ℕ). test_bit t i) (omega (arith, pow-suc 2 b))

-- The complement of a number of `w` bits turns each of its bits round.
pub test_bit-complement :
    (w i x : ℕ) → x < 2 ^ w → i < w → test_bit (2 ^ w - 1 - x) i ≡ not (test_bit x i)
unfolding test_bit
test_bit-complement zero i x h l = elim l [ ]
test_bit-complement (suc w) zero x h l = ground (arith, pow-suc 2 w, one-le-pow w 2)
test_bit-complement (suc w) (suc i) x h l =
    rw halves (test_bit-complement w i (x / 2) (omega (arith, pow-suc 2 w)) (omega arith))
  where
    halves : (2 ^ suc w - 1 - x) / 2 ≡ 2 ^ w - 1 - x / 2
    halves = omega (arith, pow-suc 2 w, one-le-pow w 2)

-- A number of `w` bits that has no bit is 0.
pub eq-zero_of_test_bit : (w x : ℕ) → x < 2 ^ w → ((i : ℕ) → i < w → test_bit x i ≡ false) → x ≡ 0
unfolding test_bit
eq-zero_of_test_bit zero x h none_set = omega arith
eq-zero_of_test_bit (suc w) x h none_set =
    let ih =
      eq-zero_of_test_bit w (x / 2) (omega (arith, pow-suc 2 w))
        (λ i l. none_set (suc i) (omega arith)) in
    ground (arith, none_set 0, ih)

-- A bit of a number, by arithmetic.
pub test_bit-eq : (i x : ℕ) → test_bit x i ≡ (x / 2 ^ i % 2 == 1)
unfolding test_bit
test_bit-eq zero x = ground arith
test_bit-eq (suc i) x = ground (arith, test_bit-eq i (x / 2), div_pow)
  where
    twice : 2 ^ suc i ≡ 2 * 2 ^ i
    twice = omega (arith, pow-suc 2 i)

    div_pow : x / 2 ^ suc i ≡ x / 2 / 2 ^ i
    div_pow = ap (λ (t : ℕ). x / t) twice ∙ sym (div-div-eq-div-mul x 2 (2 ^ i))

-- The bits below a power of two that divides a number, and the one at it.
pub test_bit-shifted :
    (r z j : ℕ) → j ≤ r → test_bit (z * 2 ^ r) j ≡ (if j == r then z % 2 == 1 else false)
unfolding test_bit
test_bit-shifted zero z zero h = ap (λ (t : ℕ). t % 2 == 1) (omega arith)
test_bit-shifted zero z (suc j) h = absurd (omega arith)
test_bit-shifted (suc r) z zero h =
    ground (arith, low_digit (z * 2 ^ suc r) (omega (arith, ap (λ (t : ℕ). z * t) (pow-suc 2 r))))
test_bit-shifted (suc r) z (suc j) h =
    ap (λ (t : ℕ). test_bit t j) halves ∙ ground (arith, test_bit-shifted r z j)
  where
    halves : z * 2 ^ suc r / 2 ≡ z * 2 ^ r
    halves = omega (arith, ap (λ (t : ℕ). z * t) (pow-suc 2 r))

pub bit_or-lt : (w a b : ℕ) → a < 2 ^ w → b < 2 ^ w → bit_or a b < 2 ^ w
bit_or-lt zero a b p q = ground (arith, both)
  where
    both : bit_or a b ≡ bit_or 0 0
    both = let p' : a ≡ 0 = omega arith in let q' : b ≡ 0 = omega arith in rw (p', q')
bit_or-lt (suc w) a b p q = omega (
  arith,
  bit_or_step a b,
  pow-suc 2 w,
  bit_or-lt w (a / 2) (b / 2) (omega (arith, pow-suc 2 w)) (omega (arith, pow-suc 2 w)),
)

and-le_below : (n a b : ℕ) → a ≤ n → bit_and a b ≤ a
and-le_below zero zero b h = omega (arith, bit_and-bitwise 0 b)
and-le_below zero (suc a) b h = absurd (omega arith)
and-le_below (suc n) zero b h = omega (arith, bit_and-bitwise 0 b)
and-le_below (suc n) (suc a) b h =
    omega (arith, bit_and_step (suc a) b, and-le_below n (suc a / 2) (b / 2) (omega arith))

pub bit_and-le : (a b : ℕ) → bit_and a b ≤ a
bit_and-le a b = and-le_below a a b (omega arith)

-- Two numbers of `w` bits with the same bits are equal.
pub eq_of_test_bit :
    (w x y : ℕ) → x < 2 ^ w → y < 2 ^ w → ((i : ℕ) → i < w → test_bit x i ≡ test_bit y i) → x ≡ y
unfolding test_bit
eq_of_test_bit zero x y hx hy same = omega arith
eq_of_test_bit (suc w) x y hx hy same =
    let ih =
      eq_of_test_bit w (x / 2) (y / 2) (omega (arith, pow-suc 2 w)) (omega (arith, pow-suc 2 w))
        (λ i l. same (suc i) (omega arith)) in
    ground (arith, same 0, ih)

and-le_mask_below : (n a b : ℕ) → a ≤ n → bit_and a b ≤ b
and-le_mask_below zero zero b h = omega (arith, bit_and-bitwise 0 b)
and-le_mask_below zero (suc a) b h = absurd (omega arith)
and-le_mask_below (suc n) zero b h = omega (arith, bit_and-bitwise 0 b)
and-le_mask_below (suc n) (suc a) b h =
    omega (arith, bit_and_step (suc a) b, and-le_mask_below n (suc a / 2) (b / 2) (omega arith))

pub bit_and-le_mask : (a b : ℕ) → bit_and a b ≤ b
bit_and-le_mask a b = and-le_mask_below a a b (omega arith)
