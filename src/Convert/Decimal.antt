-- ===== src/Convert/Decimal.antt =====
-- Decimal numbers are converted to their value.
use l4ertl.Convert.Value.{IsValue, digits-IsValue, value_after, IsDigits}
use l4ertl.Base.{
  [], ◌⊎◌, if◌then◌else◌, ap, inr, inl, refl, zero, suc, ◌==◌, arith, ◌≤◌, false, ◌+◌, none, ◌-◌,
  ◌^◌, min, some, ◌≡◌, length, ◌∷◌, ◌<◌, List, Option, Ptr, ℕ,
}
use l4ertl.Convert.{
  Converted, Digits, finish, skip_spaces, base_of, unsigned_part, digit_of, isspace, ℕ, strtoul,
}
use l4ertl.Memory.{Memory}

-- At `p` stand the characters of the decimal digits, '0' being 48, and behind them a character that is
-- none of '0' to '9'.
abbrev pub IsDecimal : Memory → Ptr → List ℕ → Type 0
IsDecimal m p [] = (m p < 256) × ((m p < 48) ⊎ (57 < m p))
IsDecimal m p (c ∷ cs) = (m p ≡ c + 48) × (c < 10) × IsDecimal m (p + 1) cs

IsDecimal-IsDigits : (m : Memory) (p : Ptr) (cs : List ℕ) → IsDecimal m p cs → IsDigits m 10 p cs
unfolding IsDigits digit_of
IsDecimal-IsDigits m p [] h = ground (arith, h)
IsDecimal-IsDigits m p (c ∷ cs) (byte, small, rest) =
    (ground (arith, byte), ground (arith, byte, small), small, IsDecimal-IsDigits m (p + 1) cs rest)

stores :
    (v : ℕ) (endptr : Option Ptr) (a b : Ptr)
    → a ≡ b
    → ◌≡◌ {A = Converted}
        (record { value = v; endptr = elim endptr [ none ↦ none | some _ ↦ some a ] })
        (record { value = v; endptr = elim endptr [ none ↦ none | some _ ↦ some b ] })
stores v endptr a b e =
    ap (λ p. record { value = v; endptr = elim endptr [ none ↦ none | some _ ↦ some p ] }) e

finish-IsValue :
    (ptr : Ptr) (endptr : Option Ptr) (total count : ℕ) (d : Digits)
    → 0 < count
    → IsValue total (ptr + count) d
    → finish ptr ptr false endptr d ≡ record {
      value = min total (2 ^ 32 - 1);
      endptr = elim endptr [ none ↦ none | some _ ↦ some (ptr + count) ];
    }
unfolding finish
finish-IsValue ptr endptr total count d some_digits (at, inl (fits, flag, value)) =
    let test : (d.nptr == ptr) ≡ false = ground (arith, at, some_digits) in
    let whole : min total (2 ^ 32 - 1) ≡ total = ground (arith, fits) in
    rw (test, flag, value, whole)
      (stores total endptr (if d.nptr == ptr then ptr else d.nptr) (ptr + count) (rw test at))
finish-IsValue ptr endptr total count d some_digits (at, inr (large, flag)) =
    let test : (d.nptr == ptr) ≡ false = ground (arith, at, some_digits) in
    let whole : min total (2 ^ 32 - 1) ≡ 2 ^ 32 - 1 = ground (arith, large) in
    rw (test, flag, whole)
      (stores (2 ^ 32 - 1) endptr (if d.nptr == ptr then ptr else d.nptr) (ptr + count)
        (rw test at))

decimal-unsigned_part :
    (fuel : ℕ) (m : Memory) (ptr : Ptr) (endptr : Option Ptr) (c : ℕ) (cs : List ℕ)
    → IsDigits m 10 ptr (c ∷ cs)
    → length (c ∷ cs) < fuel
    → unsigned_part fuel m ptr endptr 10 false ptr
      ≡ some (record {
        value = min (value_after 10 0 (c ∷ cs)) (2 ^ 32 - 1);
        endptr = elim endptr [ none ↦ none | some _ ↦ some (ptr + length (c ∷ cs)) ];
      })
unfolding unsigned_part base_of finish
decimal-unsigned_part fuel m ptr endptr c cs is enough =
    let (d, ends, (at, result)) =
      digits-IsValue m 10 (omega arith) (omega arith) fuel ptr 0 (c ∷ cs) (omega arith) is enough in
    rw (ends, unsigned_part)
      (ap some (
        finish-IsValue ptr endptr (value_after 10 0 (c ∷ cs)) (length (c ∷ cs)) d (omega arith)
          (at, result)))

digit-isspace : (x : ℕ) → 48 ≤ x → x ≤ 57 → isspace x ≡ false
unfolding isspace
digit-isspace x low high = ground arith

skip_spaces-none :
    (fuel : ℕ) (m : Memory) (p : Ptr)
    → 0 < fuel
    → isspace (m p) ≡ false
    → skip_spaces fuel m p ≡ some p
unfolding skip_spaces
skip_spaces-none zero m p real e = absurd (omega (arith, real))
skip_spaces-none (suc fuel) m p real e = rw e refl

-- For a string that starts with characters from '0' to '9', at least one, and goes on with another
-- character, `strtoul` in base 10 returns the decimal value of these digits if it is below 2 ^ 32 and else
-- 2 ^ 32 - 1, and stores the place behind the digits if `endptr` is not NULL. Enough fuel is more than the
-- number of the digits.
pub strtoul-decimal :
    (fuel : ℕ) (m : Memory) (ptr : Ptr) (endptr : Option Ptr) (c : ℕ) (cs : List ℕ)
    → IsDecimal m ptr (c ∷ cs)
    → length (c ∷ cs) < fuel
    → strtoul fuel m ptr endptr 10
      ≡ some (record {
        value = min (value_after 10 0 (c ∷ cs)) (2 ^ 32 - 1);
        endptr = elim endptr [ none ↦ none | some _ ↦ some (ptr + length (c ∷ cs)) ];
      })
unfolding strtoul
strtoul-decimal fuel m ptr endptr c cs is enough =
    let (low, high) : (48 ≤ m ptr) × (m ptr ≤ 57) = omega (arith, is.0, is.1) in
    let no_space : isspace (m ptr) ≡ false = digit-isspace (m ptr) low high in
    let start : skip_spaces fuel m ptr ≡ some ptr =
      skip_spaces-none fuel m ptr (omega (arith, enough)) no_space in
    let no_minus : (m ptr == 45) ≡ false = ground (arith, low) in
    let no_plus : (m ptr == 43) ≡ false = ground (arith, low) in
    rw (start, no_minus, no_plus, strtoul)
      (decimal-unsigned_part fuel m ptr endptr c cs (IsDecimal-IsDigits m ptr (c ∷ cs) is) enough)
