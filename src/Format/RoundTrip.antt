-- ===== src/Format/RoundTrip.antt =====
-- A number that `__ltostr` writes in base 10 is read back by `strtoul`.
use l4ertl.Base.{
  ◌≢◌, ℕ, zero, suc, Ptr, Bool, List, [], ◌∷◌, Option, some, none, length, ◌+◌, ◌-◌, ◌*◌, ◌/◌, ◌%◌,
  ◌^◌, ◌<◌, ◌≤◌, ◌≡◌, ◌==◌, update, arith, refl, sym, ap, ◌∙◌, subst, Bool-cases, inl, inr, min,
}
use native.Mathlib.Nat.{pow-suc}
use l4ertl.Memory.{Memory, memmove}
use l4ertl.Memory.Copy.{memmove-copied, copied}
use l4ertl.Convert.{strtoul}
use l4ertl.Convert.Value.{value_after}
use l4ertl.Convert.Decimal.{IsDecimal, strtoul-decimal}
use l4ertl.Format.{ltostr, write_digits, digit_char, Written}

IsDecimal-moved :
    (m m' : Memory) (p p' : Ptr) (cs : List ℕ)
    → ((n q q' : ℕ) → n ≤ length cs → q ≡ p + n → q' ≡ p' + n → m' q' ≡ m q)
    → IsDecimal m p cs
    → IsDecimal m' p' cs
IsDecimal-moved m m' p p' [] same h =
    ground (arith, same 0 p p' (omega arith) (omega arith) (omega arith), h)
IsDecimal-moved m m' p p' (c ∷ cs) same (byte, small, rest) = (
  same 0 p p' (omega arith) (omega arith) (omega arith) ∙ byte,
  small,
  IsDecimal-moved m m' (p + 1) (p' + 1) cs
      (λ n q q' le e e'.
        same (suc n) q q' (omega (arith, le)) (omega (arith, e)) (omega (arith, e')))
      rest,
)

-- What the loop leaves for the digits `cs` that it has written before.
record HasWritten (s left i : ℕ) (j : ℕ) (cs : List ℕ) (w : Written) : Type 0 where
  all : List ℕ
  decimal : IsDecimal w.memory w.tmp all
  value : value_after 10 0 all ≡ value_after 10 i cs
  count : w.j + length cs ≡ j + length all
  place : w.tmp + length all ≡ s + left + length cs
  longer : length cs ≤ length all
  above : s ≤ w.tmp

ended :
    (left s i j : ℕ) (m : Memory) (cs : List ℕ)
    → i ≡ 0
    → IsDecimal m (s + left) cs
    → HasWritten s left i j cs (record { tmp = s + left; j = j; memory = m })
ended left s i j m cs none_left h = record {
  all = cs;
  decimal = h;
  value = ap (λ n. value_after 10 n cs) (sym none_left);
  count = refl;
  place = refl;
  longer = omega arith;
  above = omega arith;
}

write_digits-HasWritten :
    (left s i : ℕ) (up_case : Bool) (j : ℕ) (m : Memory) (cs : List ℕ)
    → i < 10 ^ left
    → IsDecimal m (s + left) cs
    → HasWritten s left i j cs (write_digits left s i 10 up_case j m)
unfolding write_digits digit_char
write_digits-HasWritten zero s i up_case j m cs small h =
    subst (λ a. HasWritten s zero i j cs (record { tmp = a; j = j; memory = m }))
      (let e : s + 0 ≡ s = omega arith in e) (ended 0 s i j m cs (omega (arith, small)) h)
write_digits-HasWritten (suc left) s i up_case j m cs small h = elim (Bool-cases (i == 0)) [
  | inl e ↦ rw e (ended (suc left) s i j m cs (ground (arith, e)) h)
  | inr e ↦
      let c = digit_char i 10 up_case in
      let m1 = update m (s + left) c in
      let char : c ≡ i % 10 + 48 = ground arith in
      let kept : IsDecimal m1 (s + left + 1) cs =
        IsDecimal-moved m m1 (s + suc left) (s + left + 1) cs
          (λ n q q' le e1 e2. ground (arith, e1, e2)) h in
      let written : IsDecimal m1 (s + left) (i % 10 ∷ cs) =
        (ground (arith, char), omega arith, kept) in
      let less : i / 10 < 10 ^ left = omega (arith, small, pow-suc 10 left) in
      let r =
        write_digits-HasWritten left s (i / 10) up_case (j + 1) m1 (i % 10 ∷ cs) less written in
      let back : i / 10 * 10 + i % 10 ≡ i = omega arith in
      rw e record {
        all = r.all;
        decimal = r.decimal;
        value = r.value ∙ ap (λ n. value_after 10 n cs) back;
        count = omega (arith, r.count);
        place = omega (arith, r.place);
        longer = omega (arith, r.longer);
        above = r.above;
      }
]

-- The end of `__ltostr`.
abbrev ltostr_end : Ptr → Written → ℕ × Memory
ltostr_end s w = (w.j, (memmove s w.tmp (w.j + 1) w.memory).1)

module _ (fuel : ℕ) (s : Ptr) (w : Written) (endptr : Option Ptr) where
  abbrev ReadsBack : ℕ → Type 0
  ReadsBack i =
      strtoul fuel (ltostr_end s w).1 s endptr 10
      ≡ some (record { value = i; endptr = elim endptr [ none ↦ none | some _ ↦ some (s + w.j) ] })

  -- Digits that the loop has left are read back.
  read_back :
      (c : ℕ) (cs : List ℕ)
      → IsDecimal w.memory w.tmp (c ∷ cs)
      → w.j ≡ length (c ∷ cs)
      → w.j < fuel
      → value_after 10 0 (c ∷ cs) < 2 ^ 32
      → ReadsBack (value_after 10 0 (c ∷ cs))
  read_back c cs h count enough small =
      let m1 = copied s w.tmp (w.j + 1) w.memory in
      let moved : IsDecimal m1 s (c ∷ cs) =
        IsDecimal-moved w.memory m1 w.tmp s (c ∷ cs)
          (λ n q q' le e e'.
            let place : w.tmp + (q' - s) ≡ q = omega (arith, e, e') in
            ground (arith, le, e, e', count, ap w.memory place))
          h in
      let fits : min (value_after 10 0 (c ∷ cs)) (2 ^ 32 - 1) ≡ value_after 10 0 (c ∷ cs) =
        ground (arith, small) in
      let read = strtoul-decimal fuel m1 s endptr c cs moved (omega (arith, count, enough)) in
      rw (memmove-copied s w.tmp (w.j + 1) w.memory) (
        read
        ∙ ap
            (λ v. some (record {
              value = v;
              endptr = elim endptr [ none ↦ none | some _ ↦ some (s + length (c ∷ cs)) ];
            }))
            fits
        ∙ ap
            (λ n. some (record {
              value = value_after 10 0 (c ∷ cs);
              endptr = elim endptr [ none ↦ none | some _ ↦ some (s + n) ];
            }))
            (sym count))

read_all :
    (fuel : ℕ) (s left i : ℕ) (w : Written) (endptr : Option Ptr) (xs : List ℕ)
    → i ≢ 0
    → i < 2 ^ 32
    → left < fuel
    → (h : HasWritten s left i 0 [] w) → h.all ≡ xs
    → ReadsBack fuel s w endptr i
read_all fuel s left i w endptr [] ne small enough h e =
    absurd (ne (sym (h.value) ∙ ap (value_after 10 0) e))
read_all fuel s left i w endptr (c ∷ cs) ne small enough h e =
    let value : value_after 10 0 (c ∷ cs) ≡ i = sym (ap (value_after 10 0) e) ∙ h.value in
    let count : w.j ≡ length (c ∷ cs) =
      (let n : w.j ≡ length h.all = omega (arith, h.count) in n) ∙ ap length e in
    subst (ReadsBack fuel s w endptr) value (
      read_back fuel s w endptr c cs (subst (IsDecimal w.memory w.tmp) e h.decimal) count
        (omega (arith, enough, h.place, h.above, h.count)) (omega (arith, small, value)))

-- A number below 2 ^ 32 that `__ltostr` writes in base 10 into an array with room for it and the final
-- zero is read back by `strtoul` in base 10, which stores the place behind the digits, as many as
-- `__ltostr` returned, if `endptr` is not NULL. Enough fuel is the size of the array.
pub strtoul-ltostr :
    (fuel : ℕ) (s : Ptr) (size i : ℕ) (up_case : Bool) (m : Memory) (endptr : Option Ptr)
    → i < 2 ^ 32
    → i < 10 ^ (size - 1)
    → 2 ≤ size
    → size ≤ fuel
    → strtoul fuel (ltostr s size i 10 up_case m).1 s endptr 10
      ≡ some (record {
        value = i;
        endptr = elim endptr [ none ↦ none | some _ ↦ some (s + (ltostr s size i 10 up_case m).0) ];
      })
unfolding ltostr
strtoul-ltostr fuel s size i up_case m endptr word_size fits room enough =
    let m1 = update m (s + (size - 1)) 0 in
    let reads : ℕ × Memory → Type 0 = λ r.
      strtoul fuel r.1 s endptr 10
      ≡ some
          (record { value = i; endptr = elim endptr [ none ↦ none | some _ ↦ some (s + r.0) ] }) in
    elim (Bool-cases (i == 0)) [
      | inl e ↦
          let zero_written : Written = record {
            tmp = s + (size - 1) - 1;
            j = 1;
            memory = update m1 (s + (size - 1) - 1) 48;
          } in
          let same : ltostr_end s zero_written ≡ ltostr s size i 10 up_case m = rw e refl in
          subst reads same (
            subst (ReadsBack fuel s zero_written endptr) (let z : 0 ≡ i = ground (arith, e) in z) (
              read_back fuel s zero_written endptr 0 []
                (ground (arith, room), omega arith, ground (arith, room)) refl
                (omega (arith, room, enough)) (omega arith)))
      | inr e ↦
          let digits = write_digits (size - 1) s i 10 up_case 0 m1 in
          let same : ltostr_end s digits ≡ ltostr s size i 10 up_case m = rw e refl in
          subst reads same (
            read_all fuel s (size - 1) i digits endptr _ (ground (arith, e)) word_size
              (omega (arith, room, enough))
              (write_digits-HasWritten (size - 1) s i up_case 0 m1 [] fits (ground arith)) refl)
    ]
