-- ===== src/Base/Maps.antt =====
-- Maps from addresses (numbers) to values, as functions, and words of 32 bits.
use Prim.Native.Nat.{ℕ, suc, ◌^◌, ◌+◌, ◌%◌}
use mathlib.Core.Bool.{Bool}
use mathlib.Core.List.{List, [], ◌∷◌}
use l4ertl.Base.Tests.{ltb, ◌==◌, if◌then◌else◌}

-- The map with one entry written.
abbrev pub update {ℓ} : {A : Type ℓ} → (ℕ → A) → ℕ → A → ℕ → A
update f p v q = if p == q then v else f q

-- An address; 0 is NULL.
abbrev pub Ptr : Type 0
Ptr = ℕ

abbrev pub null : Ptr
null = 0

-- 2 ^ 32, over which int and unsigned long wrap.
abbrev pub word : ℕ
word = 2 ^ 32

abbrev pub length {ℓ} : {A : Type ℓ} → List A → ℕ
length [] = 0
length (x ∷ xs) = suc (length xs)

-- `a < b` of two ints, kept as words whose upper half are the negative numbers.
abbrev pub int_ltb : ℕ → ℕ → Bool
int_ltb a b = ltb ((a + 2 ^ 31) % word) ((b + 2 ^ 31) % word)
