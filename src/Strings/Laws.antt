-- ===== src/Strings/Laws.antt =====
-- Strings as lists of bytes.
use l4ertl.Memory.Copy.{copy_up-copied, copied}
use l4ertl.Base.{
  refl, ℕ_discrete, ◌%◌, word, true, ◌||◌, subst, ◌-◌, ◌∙◌, not, zero, ap, false, [], ◌==◌, arith,
  update, ◌↔◌, ◌≤◌, null, some, ◌∷◌, ◌⊎◌, ◌<◌, ◌+◌, ◌≢◌, ◌≡◌, length, List, Ptr, ℕ,
}
use l4ertl.Strings.{strcmp, count_bytes, strlen, strcpy}
use Prim.Native.Nat.{suc, ℕ}
use l4ertl.Memory.{copy_up, Memory}

-- The bytes from `s` are those of the list, all of them 1 to 255, and a zero after them.
unfoldable pub IsString : Memory → Ptr → List ℕ → Type 0
IsString m s [] = m s ≡ 0
IsString m s (x ∷ xs) = (m s ≡ x) × (0 < x) × (x < 256) × IsString m (s + 1) xs

count_bytes-length :
    (fuel : ℕ) (m : Memory) (s : Ptr) (xs : List ℕ)
    → IsString m s xs
    → length xs < fuel
    → count_bytes fuel m s ≡ some (length xs)
unfolding count_bytes IsString
count_bytes-length zero m s xs is enough = absurd (omega (arith, enough))
count_bytes-length (suc fuel) m s [] is enough = ground (arith, is)
count_bytes-length (suc fuel) m s (x ∷ xs) is enough =
    let later = count_bytes-length fuel m (s + 1) xs is.3 (omega (arith, enough)) in
    let more : (m s == 0) ≡ false = ground (arith, is.0, is.1) in
    rw (more, later) (ap some (omega arith))

-- With more fuel than the string has bytes, `strlen` of a string that is not at NULL ends with the number of its bytes.
pub strlen-length :
    (fuel : ℕ) (m : Memory) (s : Ptr) (xs : List ℕ)
    → s ≢ null
    → IsString m s xs
    → length xs < fuel
    → strlen fuel m s ≡ some (length xs)
unfolding strlen
strlen-length fuel m s xs real is enough =
    let test : (s == null) ≡ false = ground (arith, real) in
    rw test (count_bytes-length fuel m s xs is enough)

-- A write to a place outside a string keeps it.
update-IsString :
    (m : Memory) (s p v : ℕ) (xs : List ℕ)
    → (p < s) ⊎ (s + length xs < p)
    → IsString m s xs
    → IsString (update m p v) s xs
unfolding IsString
update-IsString m s p v [] out is = ground (arith, out, is)
update-IsString m s p v (x ∷ xs) out is = (
  ground (arith, out, is.0),
  is.1,
  is.2,
  update-IsString m (s + 1) p v xs (ground (arith, out)) is.3,
)

-- `strcpy` copies the bytes and the zero.
strcpy-copy_up :
    (fuel dst src : ℕ) (m : Memory) (xs : List ℕ)
    → IsString m src xs
    → length xs < fuel
    → (dst ≤ src) ⊎ (src + length xs < dst)
    → strcpy fuel dst src m ≡ some (copy_up m dst src (suc (length xs)))
unfolding strcpy copy_up IsString
strcpy-copy_up zero dst src m xs is enough apart = absurd (omega (arith, enough))
strcpy-copy_up (suc fuel) dst src m [] is enough apart = ground (arith, is)
strcpy-copy_up (suc fuel) dst src m (x ∷ xs) is enough apart =
    let more : (m src == 0) ≡ false = ground (arith, is.0, is.1) in
    let kept = update-IsString m (src + 1) dst (m src) xs (ground (arith, apart)) is.3 in
    rw more (
      strcpy-copy_up fuel (dst + 1) (src + 1) (update m dst (m src)) xs kept (omega (arith, enough))
        (ground (arith, apart)))

place-copied :
    (dst src count i : ℕ) (m m' : Memory)
    → i < count
    → ((p : Ptr) → m' p ≡ copied dst src count m p)
    → m' (dst + i) ≡ m (src + i)
place-copied dst src count i m m' inside e =
    let place : src + (dst + i - dst) ≡ src + i = omega arith in
    ground (arith, inside, e (dst + i), place, ap m place)

-- What was copied is a string.
copied-IsString :
    (dst src count i : ℕ) (m m' : Memory) (xs : List ℕ)
    → IsString m (src + i) xs
    → i + length xs < count
    → ((p : Ptr) → m' p ≡ copied dst src count m p)
    → IsString m' (dst + i) xs
unfolding IsString
copied-IsString dst src count i m m' [] is inside e =
    place-copied dst src count i m m' (omega (arith, inside)) e ∙ is
copied-IsString dst src count i m m' (x ∷ xs) is inside e = (
  place-copied dst src count i m m' (omega (arith, inside)) e ∙ is.0,
  is.1,
  is.2,
  (let next_to : dst + i + 1 ≡ dst + (i + 1) = omega arith in
      let next_from : src + i + 1 ≡ src + (i + 1) = omega arith in
      rw next_to (
        copied-IsString dst src count (i + 1) m m' xs (subst (λ p. IsString m p xs) next_from is.3)
          (omega (arith, inside)) e)),
)

-- If no copy is written over bytes that are still to be read, `strcpy` ends, the string stands at
-- `dst`, and all bytes but those of its copy and the zero after it are kept.
pub strcpy-IsString :
    (fuel dst src : ℕ) (m : Memory) (xs : List ℕ)
    → IsString m src xs
    → length xs < fuel
    → (dst ≤ src) ⊎ (src + length xs < dst)
    → (m' : Memory) × (strcpy fuel dst src m ≡ some m')
      × IsString m' dst xs
      × ((p : Ptr) → (p < dst) ⊎ (dst + length xs < p) → m' p ≡ m p)
strcpy-IsString fuel dst src m xs is enough apart =
    let count = suc (length xs) in
    let left : (p : Ptr) → copy_up m dst src count p ≡ copied dst src count m p =
      (λ p. copy_up-copied count dst src m p (ground (arith, apart))) in
    let to : dst + 0 ≡ dst = omega arith in
    let from : src ≡ src + 0 = omega arith in
    (
      copy_up m dst src count,
      strcpy-copy_up fuel dst src m xs is enough apart,
      subst (λ p. IsString (copy_up m dst src count) p xs) to
          (copied-IsString dst src count 0 m (copy_up m dst src count) xs
            (subst (λ p. IsString m p xs) from is) (omega arith) left),
      (λ p out. ground (arith, left p, out)),
    )

abbrev head_of : List ℕ → ℕ
head_of [] = 0
head_of (x ∷ xs) = x

abbrev tail_of : List ℕ → List ℕ
tail_of [] = []
tail_of (x ∷ xs) = xs

-- With more fuel than the first of two strings has bytes, `strcmp` ends, and it returns 0 exactly if the two
-- have the same bytes.
pub strcmp-equal :
    (fuel : ℕ) (m : Memory) (s t : Ptr) (xs ys : List ℕ)
    → IsString m s xs
    → IsString m t ys
    → length xs < fuel
    → (r : ℕ) × (strcmp fuel m s t ≡ some r) × ((r ≡ 0) ↔ (xs ≡ ys))
unfolding strcmp IsString
strcmp-equal zero m s t xs ys is js enough = absurd (omega (arith, enough))
strcmp-equal (suc fuel) m s t [] [] is js enough =
    let test : (not (m s == m t) || m s == 0) ≡ true = ground (arith, is, js) in
    ((m s + word - m t) % word, rw test refl, ((λ h. refl), (λ h. omega (arith, is, js))))
strcmp-equal (suc fuel) m s t [] (y ∷ ys) is js enough =
    let test : (not (m s == m t) || m s == 0) ≡ true = ground (arith, is) in
    (
      (m s + word - m t) % word,
      rw test refl,
      (
        (λ h. absurd (omega (arith, h, is, js.0, js.1, js.2))),
        (λ h. absurd (omega (arith, ap length h))),
      ),
    )
strcmp-equal (suc fuel) m s t (x ∷ xs) [] is js enough =
    let test : (not (m s == m t) || m s == 0) ≡ true = ground (arith, is.0, is.1, js) in
    (
      (m s + word - m t) % word,
      rw test refl,
      (
        (λ h. absurd (omega (arith, h, js, is.0, is.1, is.2))),
        (λ h. absurd (omega (arith, ap length h))),
      ),
    )
strcmp-equal (suc fuel) m s t (x ∷ xs) (y ∷ ys) is js enough = elim (ℕ_discrete (m s) (m t)) [
  | yes same ↦
      let test : (not (m s == m t) || m s == 0) ≡ false = ground (arith, same, is.0, is.1) in
      let (r, ends, equal) =
        strcmp-equal fuel m (s + 1) (t + 1) xs ys is.3 js.3 (omega (arith, enough)) in
      let heads : x ≡ y = omega (arith, same, is.0, js.0) in
      (
        r,
        rw test ends,
        (
          (λ h. ap (λ a. a ∷ xs) heads ∙ ap (λ l. y ∷ l) (equal.0 h)),
          (λ h. equal.1 (ap tail_of h)),
        ),
      )
  | no other ↦
      let test : (not (m s == m t) || m s == 0) ≡ true = ground (arith, other) in
      (
        (m s + word - m t) % word,
        rw test refl,
        (
          (λ h. absurd (omega (arith, h, other, is.0, is.2, js.0, js.2))),
          (λ h. absurd (omega (arith, other, is.0, js.0, ap head_of h))),
        ),
      )
]
