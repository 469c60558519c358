-- ===== src/User/PathName/LastPart.antt =====
-- What `basename` returns.
use l4ertl.Base.{
  ℕ, zero, suc, Ptr, null, List, [], ◌∷◌, ◌++◌, length, some, ◌≡◌, ◌≢◌, ◌<◌, ◌+◌, ◌==◌, false, true,
  refl, arith, ap, ◌∙◌, if◌then◌else◌, subst,
}
use l4ertl.Chain.{has}
use l4ertl.Memory.{Memory}
use l4ertl.Strings.{last_of, strrchr}
use l4ertl.Strings.Laws.{IsString}
use l4ertl.User.PathName.{basename, slash}

last_of-none :
    (fuel : ℕ) (m : Memory) (l t : Ptr) (ys : List ℕ)
    → IsString m t ys
    → has slash ys ≡ false
    → length ys < fuel
    → last_of fuel m slash l t ≡ some l
unfolding last_of IsString
last_of-none zero m l t ys is none_there enough = absurd (omega (arith, enough))
last_of-none (suc fuel) m l t [] is none_there enough =
    let ends : (m t == 0) ≡ true = ground (arith, is) in
    let other : (m t == slash) ≡ false = ground (arith, is) in rw (ends, other) refl
last_of-none (suc fuel) m l t (y ∷ ys) is none_there enough =
    let more : (m t == 0) ≡ false = ground (arith, is.0, is.1) in
    let other : (m t == slash) ≡ false = ground (arith, is.0, none_there) in
    rw (more, other)
      (last_of-none fuel m l (t + 1) ys is.3 (ground (arith, none_there)) (omega (arith, enough)))

last_of-slash :
    (fuel : ℕ) (m : Memory) (l t : Ptr) (xs ys : List ℕ)
    → IsString m t (xs ++ slash ∷ ys)
    → has slash ys ≡ false
    → length (xs ++ slash ∷ ys) < fuel
    → last_of fuel m slash l t ≡ some (t + length xs)
unfolding last_of IsString
last_of-slash zero m l t xs ys is none_there enough = absurd (omega (arith, enough))
last_of-slash (suc fuel) m l t [] ys is none_there enough =
    let more : (m t == 0) ≡ false = ground (arith, is.0) in
    let found : (m t == slash) ≡ true = ground (arith, is.0) in
    rw (more, found)
      (last_of-none fuel m t (t + 1) ys is.3 none_there (omega (arith, enough))
        ∙ ap some (omega arith))
last_of-slash (suc fuel) m l t (x ∷ xs) ys is none_there enough =
    let more : (m t == 0) ≡ false = ground (arith, is.0, is.1) in
    rw more (
      last_of-slash fuel m (if m t == slash then t else l) (t + 1) xs ys is.3 none_there
        (omega (arith, enough))
      ∙ ap some (omega arith))

-- The string behind a character of a string.
IsString-after :
    (m : Memory) (p z : ℕ) (xs ys : List ℕ)
    → IsString m p (xs ++ z ∷ ys)
    → IsString m (p + length xs + 1) ys
unfolding IsString
IsString-after m p z [] ys is =
    subst (λ a. IsString m a ys) (let e : p + 1 ≡ p + 0 + 1 = omega arith in e) is.3
IsString-after m p z (x ∷ xs) ys is =
    subst (λ a. IsString m a ys)
      (let e : p + 1 + length xs + 1 ≡ p + suc (length xs) + 1 = omega arith in e)
      (IsString-after m (p + 1) z xs ys is.3)

-- With more fuel than the path has bytes and one round, `basename` of a path that does not end in a slash
-- writes nothing and returns the place of the string behind the last slash.
pub basename-IsString :
    (fuel rounds : ℕ) (m : Memory) (path y : ℕ) (xs ys : List ℕ)
    → path ≢ null
    → IsString m path (xs ++ slash ∷ y ∷ ys)
    → has slash (y ∷ ys) ≡ false
    → length (xs ++ slash ∷ y ∷ ys) < fuel
    → (basename fuel (suc rounds) path m ≡ some (path + length xs + 1, m))
      × IsString m (path + length xs + 1) (y ∷ ys)
unfolding basename strrchr IsString
basename-IsString fuel rounds m path y xs ys real is none_there enough =
    let found = last_of-slash fuel m null path xs (y ∷ ys) is none_there enough in
    let behind = IsString-after m path slash xs (y ∷ ys) is in
    let some_place : ((path + length xs) == null) ≡ false = ground (arith, real) in
    let more : (m (path + length xs + 1) == 0) ≡ false = ground (arith, behind.0, behind.1) in
    (rw (found, some_place, more, basename, strrchr) refl, behind)
