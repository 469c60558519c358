-- ===== src/Convert/Value.antt =====
-- The loop over the digits computes the value of the digits, and notices when it is too large.
use native.Mathlib.Nat.{mul-le-mul, mul-le-mul_left}
use l4ertl.Memory.{Memory}
use l4ertl.Base.{
  refl, zero, suc, some, length, ◌∙◌, inr, ap, inl, dec_lt, arith, ◌⊎◌, ◌/◌, ltb, false, word, true,
  ◌%◌, ◌≡◌, [], int_ltb, ◌+◌, not, ◌*◌, ◌^◌, ◌||◌, ◌==◌, ◌<◌, ◌∷◌, List, Ptr, ◌≤◌, ℕ,
}
use l4ertl.Convert.{Digits, ulong_max, digit_of, low_part, high_part, ℕ, Memory, digits}

-- The value of digits that follow the value `v`.
abbrev pub value_after : ℕ → ℕ → List ℕ → ℕ
value_after base v [] = v
value_after base v (c ∷ cs) = value_after base (v * base + c) cs

-- The characters from `p` stand for the digits, each less than the base, and the loop stops behind them.
unfoldable pub IsDigits : Memory → ℕ → Ptr → List ℕ → Type 0
IsDigits m base p [] = (m p == 0 || not (int_ltb (digit_of (m p)) base)) ≡ true
IsDigits m base p (c ∷ cs) =
    ((m p == 0) ≡ false) × (digit_of (m p) ≡ c) × (c < base) × IsDigits m base (p + 1) cs

mul-small : (a b n k : ℕ) → a ≤ n → b ≤ k → a * b ≤ n * k
mul-small a b n k ha hb = mul-le-mul ha hb

-- The two parts of the value, for the products `a` and `b` of the base with its high and its low part.
parts :
    (a b c : ℕ)
    → a ≤ 16777215 * 36
    → b ≤ 255 * 36
    → c < 36
    → ((a * 256 + b + c < 2 ^ 32)
        × (((a + (b + c) % word / 256) % word * 256 + (b + c) % word % 256) % word
            ≡ a * 256 + b + c)
        × (ltb (ulong_max / 256) ((a + (b + c) % word / 256) % word) ≡ false))
      ⊎ ((2 ^ 32 ≤ a * 256 + b + c)
          × (ltb (ulong_max / 256) ((a + (b + c) % word / 256) % word) ≡ true))
parts a b c ha hb hc = elim (dec_lt (a * 256 + b + c) (2 ^ 32)) [
  | yes fits ↦ inl (fits, omega (arith, fits), ground arith)
  | no large ↦ inr (omega (arith, large), ground arith)
]

-- A further digit: it overflows when the value does not fit a word.
next_value :
    (base v c : ℕ)
    → base ≤ 36
    → c < base
    → v < 2 ^ 32
    → ((v * base + c < 2 ^ 32)
        × ((high_part base v c * 256 + low_part base v c % 256) % word ≡ v * base + c)
        × (ltb (ulong_max / 256) (high_part base v c) ≡ false))
      ⊎ ((2 ^ 32 ≤ v * base + c) × (ltb (ulong_max / 256) (high_part base v c) ≡ true))
next_value base v c small digit fits =
    let a_small = mul-small (v / 256) base 16777215 36 (omega (arith, fits)) small in
    let b_small = mul-small (v % 256) base 255 36 (omega arith) small in
    let split : v * base ≡ v / 256 * base * 256 + v % 256 * base =
      ap (λ u. u * base) (let e : v ≡ v / 256 * 256 + v % 256 = omega arith in e) ∙ omega arith in
    rw split
      (parts (v / 256 * base) (v % 256 * base) c a_small b_small (omega (arith, digit, small)))

value_after-grows : (base v : ℕ) (cs : List ℕ) → 0 < base → v ≤ value_after base v cs
value_after-grows base v [] real = omega arith
value_after-grows base v (c ∷ cs) real =
    let once : v * 1 ≤ v * base = mul-le-mul_left v (omega (arith, real)) in
    let later = value_after-grows base (v * base + c) cs real in omega (arith, once, later)

-- What the loop leaves for the value `total` of all digits, when it stops at `at`.
abbrev pub IsValue : ℕ → Ptr → Digits → Type 0
IsValue total at d =
    (d.nptr ≡ at)
    × (((total < 2 ^ 32) × (d.overflow ≡ false) × (d.v ≡ total))
        ⊎ ((2 ^ 32 ≤ total) × (d.overflow ≡ true)))

module _ (m : Memory) (base : ℕ) (small : base ≤ 36) (real : 0 < base) where
  digits-overflowed :
      (fuel p v : ℕ) (cs : List ℕ)
      → IsDigits m base p cs
      → length cs < fuel
      → (d : Digits) × (digits fuel m base (record { v = v; overflow = true; nptr = p }) ≡ some d)
        × (d.nptr ≡ p + length cs)
        × (d.overflow ≡ true)
  unfolding digits IsDigits
  digits-overflowed zero p v cs is enough = absurd (omega (arith, enough))
  digits-overflowed (suc fuel) p v [] is enough =
      (record { v = v; overflow = true; nptr = p }, ground (arith, is), omega arith, refl)
  digits-overflowed (suc fuel) p v (c ∷ cs) is enough =
      let w = high_part base v (digit_of (m p)) in
      let v1 = (w * 256 + low_part base v (digit_of (m p)) % 256) % word in
      let (d, ends, at, over) = digits-overflowed fuel (p + 1) v1 cs is.3 (omega (arith, enough)) in
      let inside : (not (int_ltb (digit_of (m p)) base)) ≡ false =
        ground (arith, is.1, is.2, small) in
      (d, rw (is.0, inside) ends, omega (arith, at), over)

  pub digits-IsValue :
      (fuel p v : ℕ) (cs : List ℕ)
      → v < 2 ^ 32
      → IsDigits m base p cs
      → length cs < fuel
      → (d : Digits) × (digits fuel m base (record { v = v; overflow = false; nptr = p }) ≡ some d)
        × IsValue (value_after base v cs) (p + length cs) d
  unfolding digits IsDigits
  digits-IsValue zero p v cs fits is enough = absurd (omega (arith, enough))
  digits-IsValue (suc fuel) p v [] fits is enough = (
    record { v = v; overflow = false; nptr = p },
    ground (arith, is),
    (omega arith, inl (fits, refl, refl)),
  )
  digits-IsValue (suc fuel) p v (c ∷ cs) fits is enough =
      let inside : (not (int_ltb (digit_of (m p)) base)) ≡ false =
        ground (arith, is.1, is.2, small) in
      elim (next_value base v c small is.2 fits) [
        | inl (fits1, value, flag) ↦
            let (d, ends, (at, result)) =
              digits-IsValue fuel (p + 1) (v * base + c) cs fits1 is.3 (omega (arith, enough)) in
            (d, rw (is.0, inside, is.1, value, flag) ends, (omega (arith, at), result))
        | inr (large, flag) ↦
            let w = high_part base v c in
            let v1 = (w * 256 + low_part base v c % 256) % word in
            let (d, ends, at, over) =
              digits-overflowed fuel (p + 1) v1 cs is.3 (omega (arith, enough)) in
            (
              d,
              rw (is.0, inside, is.1, flag) ends,
              (
                omega (arith, at),
                inr (omega (arith, large, value_after-grows base (v * base + c) cs real), over),
              ),
            )
      ]
