-- ===== src/Bits/Step.antt =====
-- The native bit operations, one binary digit at a time, and against a low mask.
use Prim.Native.Nat.{digits, bit_and-bitwise, bit_or-bitwise}
use native.Mathlib.Nat.{
  pow-suc, one-le-pow, div-add-mod, mul-add-mod_self_left, mod-eq_of_lt, mod-lt,
}
use l4ertl.Base.{
  dec_lt, sym, ℕ, zero, suc, ◌+◌, ◌-◌, ◌*◌, ◌/◌, ◌%◌, ◌^◌, ◌≤◌, ◌<◌, ◌≡◌, refl, ap, ◌∙◌, min, max,
  bit_and, bit_or, arith,
}

-- An operation that the library means as a recursion on digits, with the first number as fuel.
module _ (op : ℕ → ℕ → ℕ) (rest : ℕ → ℕ) (digit : ℕ → ℕ → ℕ)
    (means : (x y : ℕ) → op x y ≡ digits rest digit x x y) where
  spare_round :
      (fuel x y : ℕ) → x ≤ fuel → digits rest digit (suc fuel) x y ≡ digits rest digit fuel x y
  spare_round zero x y small = ground (arith, small)
  spare_round (suc fuel) zero y small = refl
  spare_round (suc fuel) (suc x) y small =
      ap (λ (high : ℕ). high * 2 + digit (suc x % 2) (y % 2))
        (spare_round fuel (suc x / 2) (y / 2) (omega (arith, small)))

  -- Any fuel from the number on gives what the operation gives.
  enough_rounds : (fuel x y : ℕ) → x ≤ fuel → digits rest digit fuel x y ≡ op x y
  enough_rounds zero x y small =
      let none_left : 0 ≡ x = omega (arith, small) in
      ap (λ (n : ℕ). digits rest digit n x y) none_left ∙ sym (means x y)
  enough_rounds (suc fuel) x y small = elim (dec_lt fuel x) [
    | yes full ↦
        let exact : suc fuel ≡ x = omega (arith, full, small) in
        ap (λ (n : ℕ). digits rest digit n x y) exact ∙ sym (means x y)
    | no more ↦
        spare_round fuel x y (omega (arith, more)) ∙ enough_rounds fuel x y (omega (arith, more))
  ]

  lowest_digit : (x y : ℕ) → op (suc x) y ≡ op (suc x / 2) (y / 2) * 2 + digit (suc x % 2) (y % 2)
  lowest_digit x y =
      means (suc x) y
      ∙ ap (λ (high : ℕ). high * 2 + digit (suc x % 2) (y % 2))
          (enough_rounds x (suc x / 2) (y / 2) (omega arith))

-- The lowest binary digit of a conjunction, and of a disjunction.
pub bit_or_step : (x y : ℕ) → bit_or x y ≡ max (x % 2) (y % 2) + 2 * bit_or (x / 2) (y / 2)
bit_or_step zero y = omega (arith, bit_or-bitwise 0 (y / 2), bit_or-bitwise 0 y)
bit_or_step (suc x) y =
    omega (arith, lowest_digit bit_or (λ n. n) max (λ m n. bit_or-bitwise m n) x y)

pub bit_and_step : (x y : ℕ) → bit_and x y ≡ min (x % 2) (y % 2) + 2 * bit_and (x / 2) (y / 2)
bit_and_step zero y = omega (arith, bit_and-bitwise 0 (y / 2), bit_and-bitwise 0 y)
bit_and_step (suc x) y =
    omega (arith, lowest_digit bit_and (λ n. 0) min (λ m n. bit_and-bitwise m n) x y)

-- The bound comes as fuel, so that the recursion on halves is structural.
and-zero_below : (n a : ℕ) → a ≤ n → bit_and a 0 ≡ 0
and-zero_below n zero h = refl
and-zero_below zero (suc a) h = absurd (omega arith)
and-zero_below (suc n) (suc a) h =
    omega (arith, bit_and_step (suc a) 0, and-zero_below n (suc a / 2) (omega arith))

pub bit_and-zero : (a : ℕ) → bit_and a 0 ≡ 0
bit_and-zero a = and-zero_below a a (omega arith)

mod-double : (m a : ℕ) → 0 < m → a % (2 * m) ≡ a / 2 % m * 2 + a % 2
mod-double m a pos =
    ap (λ (t : ℕ). t % (2 * m)) whole
    ∙ mul-add-mod_self_left (2 * m) (a / 2 / m) (a / 2 % m * 2 + a % 2)
    ∙ mod-eq_of_lt (omega (arith, mod-lt (a / 2) pos))
  where
    whole : a ≡ 2 * m * (a / 2 / m) + (a / 2 % m * 2 + a % 2)
    whole = omega (arith, div-add-mod (a / 2) m)

-- A word and the mask of its `k` low bits give the remainder by `2 ^ k`.
pub bit_and-mask : (k a : ℕ) → bit_and a (2 ^ k - 1) ≡ a % 2 ^ k
bit_and-mask zero a = rw (bit_and-zero a) (omega arith)
bit_and-mask (suc k) a =
    omega (
      arith,
      bit_and_step a (2 ^ suc k - 1),
      one-le-pow k 2,
      halved,
      double,
      bit_and-mask k (a / 2),
    )
  where
    twice : 2 ^ suc k ≡ 2 * 2 ^ k
    twice = omega (arith, pow-suc 2 k)

    double : a % 2 ^ suc k ≡ a / 2 % 2 ^ k * 2 + a % 2
    double = rw twice (mod-double (2 ^ k) a (one-le-pow k 2 (omega arith)))

    halved : bit_and (a / 2) ((2 ^ suc k - 1) / 2) ≡ bit_and (a / 2) (2 ^ k - 1)
    halved = ap (bit_and (a / 2)) (omega (arith, twice, one-le-pow k 2))

or-zero_below : (n a : ℕ) → a ≤ n → bit_or a 0 ≡ a
or-zero_below n zero h = refl
or-zero_below zero (suc a) h = absurd (omega arith)
or-zero_below (suc n) (suc a) h =
    omega (arith, bit_or_step (suc a) 0, or-zero_below n (suc a / 2) (omega arith))

pub bit_or-zero : (a : ℕ) → bit_or a 0 ≡ a
bit_or-zero a = or-zero_below a a (omega arith)

-- `|` of a field shifted left by `k` and one that fits below it is their sum.
pub bit_or-disjoint : (k x y : ℕ) → y < 2 ^ k → bit_or (x * 2 ^ k) y ≡ x * 2 ^ k + y
bit_or-disjoint zero x y h =
    let none_below : y ≡ 0 = omega arith in rw none_below (omega (arith, bit_or-zero (x * 2 ^ 0)))
bit_or-disjoint (suc k) x y h =
    let field : x * 2 ^ suc k / 2 ≡ x * 2 ^ k =
      omega (arith, ap (λ (t : ℕ). x * t) (pow-suc 2 k)) in
    omega (
      arith,
      bit_or_step (x * 2 ^ suc k) y,
      ap (λ (t : ℕ). bit_or t (y / 2)) field,
      ap (λ (t : ℕ). x * t) (pow-suc 2 k),
      bit_or-disjoint k x (y / 2) (omega (arith, pow-suc 2 k)),
    )
