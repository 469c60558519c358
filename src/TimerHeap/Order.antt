-- ===== src/TimerHeap/Order.antt =====
-- The order of the heap of timers, and the timers that it holds.
use l4ertl.Kernel.{TimerHeap}
use l4ertl.TimerHeap.{}
use l4ertl.Base.{
  inr, inl, ◌⊎◌, ◌*◌, ap, refl, zero, false, ◌+◌, ◌≡◌, ℕ_discrete, ◌==◌, ◌/◌, update, arith, ◌≤◌,
  ◌<◌, if◌then◌else◌, ℕ, Ptr, Bool,
}
use Prim.Native.Nat.{suc, ℕ}

-- No timer expires before the one at its father's place.
abbrev pub IsOrdered : (Ptr → ℕ) → (ℕ → Ptr) → ℕ → Type 0
IsOrdered timer_value array n =
    (c : ℕ) → 2 ≤ c → c ≤ n → timer_value (array (c / 2)) ≤ timer_value (array c)

abbrev pub IsHeap : (Ptr → ℕ) → TimerHeap → Type 0
IsHeap timer_value h = IsOrdered timer_value h.array h.nelem

-- The children of a place expire no earlier than its father.
abbrev pub IsBridged : (Ptr → ℕ) → (ℕ → Ptr) → ℕ → ℕ → Type 0
IsBridged timer_value array n i =
    (c : ℕ)
    → 2 ≤ c
    → c ≤ n
    → c / 2 ≡ i
    → 2 ≤ i
    → timer_value (array (i / 2)) ≤ timer_value (array c)

abbrev pub one_if : Bool → ℕ
one_if b = if b then 1 else 0

-- How often the timer stands at the places 1 to `n`.
pub tally : Ptr → (ℕ → Ptr) → ℕ → ℕ
tally x array zero = 0
tally x array (suc n) = one_if (array (suc n) == x) + tally x array n

pub tally-suc :
    (x : Ptr) (array : ℕ → Ptr) (n : ℕ)
    → tally x array (n + 1) ≡ one_if (array (n + 1) == x) + tally x array n
unfolding tally
tally-suc x array n = let next : n + 1 ≡ suc n = omega arith in rw next refl

module _ (x : Ptr) (array : ℕ → Ptr) where
  tally-outside : (i : ℕ) (y : Ptr) (n : ℕ) → n < i → tally x (update array i y) n ≡ tally x array n
  unfolding tally
  tally-outside i y zero out = refl
  tally-outside i y (suc n) out =
      let off : (i == suc n) ≡ false = ground (arith, out) in
      rw (off, tally-outside i y n (omega (arith, out))) refl

  -- Writing a place takes the old timer out of the count and the new one in.
  pub tally-update :
      (i : ℕ) (y : Ptr) (n : ℕ)
      → 1 ≤ i
      → i ≤ n
      → tally x (update array i y) n + one_if (array i == x) ≡ tally x array n + one_if (y == x)
  unfolding tally
  tally-update i y zero low high = absurd (omega (arith, low, high))
  tally-update i y (suc n) low high = elim (ℕ_discrete i (suc n)) [
    | yes at ↦ ground (arith, at, tally-outside i y n)
    | no off ↦ ground (arith, off, tally-update i y n)
  ]

root_least_below :
    (fuel : ℕ) (timer_value : Ptr → ℕ) (array : ℕ → Ptr) (n i : ℕ)
    → IsOrdered timer_value array n
    → i < fuel
    → 1 ≤ i
    → i ≤ n
    → timer_value (array 1) ≤ timer_value (array i)
root_least_below zero timer_value array n i v small low high = absurd (omega (arith, small))
root_least_below (suc fuel) timer_value array n i v small low high = elim (ℕ_discrete i 1) [
  | yes root ↦ ground (arith, root)
  | no below ↦ ground (arith, below, v i, root_least_below fuel timer_value array n (i / 2) v)
]

-- The first timer expires no later than any other.
pub root_least :
    (timer_value : Ptr → ℕ) (array : ℕ → Ptr) (n i : ℕ)
    → IsOrdered timer_value array n
    → 1 ≤ i
    → i ≤ n
    → timer_value (array 1) ≤ timer_value (array i)
root_least timer_value array n i v low high =
    root_least_below (suc i) timer_value array n i v (omega arith) low high

-- A place below another is its left or its right child.
pub child-cases : (c i : ℕ) → c / 2 ≡ i → (c ≡ i * 2) ⊎ (c ≡ i * 2 + 1)
child-cases c i e = elim (ℕ_discrete c (i * 2)) [
  | yes left ↦ inl left
  | no right ↦ inr (omega (arith, e, right))
]

-- Swapping two places leaves the same timers.
pub tally-swap :
    (x : Ptr) (array : ℕ → Ptr) (i m n : ℕ)
    → 1 ≤ i
    → i < m
    → m ≤ n
    → tally x (update (update array i (array m)) m (array i)) n ≡ tally x array n
tally-swap x array i m n low apart high =
    let once = update array i (array m) in
    let other : once m ≡ array m = ground (arith, apart) in
    omega (
      arith,
      ap (λ (y : Ptr). one_if (y == x)) other,
      tally-update x array i (array m) n low (omega (arith, apart, high)),
      tally-update x once m (array i) n (omega (arith, low, apart)) high,
    )

-- With the last timer in the first place, all but the first are left.
pub tally-removed :
    (x : Ptr) (array : ℕ → Ptr) (n : ℕ)
    → tally x (update array 1 (array (n + 1))) n + one_if (array 1 == x) ≡ tally x array (n + 1)
unfolding tally
tally-removed x array zero = omega (arith, tally-suc x array zero)
tally-removed x array (suc n) = omega (
  arith,
  tally-update x array 1 (array (suc n + 1)) (suc n) (omega arith) (omega arith),
  tally-suc x array (suc n),
)
