-- ===== src/Ready/Search.antt =====
-- `lookfor_ss` finds the threads of the queues.
use l4ertl.Ready.Queues.{IsReady, Queues}
use l4ertl.Chain.{has, IsChain, Field}
use l4ertl.Base.{
  [], inr, refl, inl, ◌∷◌, null, ap, Bool-cases, ℕ_discrete, ◌↔◌, zero, arith, some, ◌||◌, ◌+◌,
  length, ◌<◌, true, ◌≤◌, ◌≡◌, List, false, Ptr, Bool, ℕ,
}
use l4ertl.Ready.{look_in_row, look_in_rows, Ready, Field, lookfor_ss, look_in_chain}
use Prim.Native.Nat.{suc, ℕ}

-- Whether a test holds of one of the `left` numbers from `at`.
abbrev pub any_from : (ℕ → Bool) → ℕ → ℕ → Bool
any_from test at zero = false
any_from test at (suc left) = test at || any_from test (at + 1) left

any_from-witness :
    (test : ℕ → Bool) (at left i : ℕ)
    → at ≤ i
    → i < at + left
    → test i ≡ true
    → any_from test at left ≡ true
any_from-witness test at zero i low high h = absurd (omega (arith, low, high))
any_from-witness test at (suc left) i low high h = elim (ℕ_discrete at i) [
  | yes here ↦ ground (arith, ap test here, h)
  | no later ↦ ground (
    arith,
    any_from-witness test (at + 1) left i (omega (arith, low, later)) (omega (arith, high)) h,
  )
]

any_from-found :
    (test : ℕ → Bool) (at left : ℕ)
    → any_from test at left ≡ true
    → (i : ℕ) × (at ≤ i) × (i < at + left) × (test i ≡ true)
any_from-found test at zero h = absurd (ground (arith, h))
any_from-found test at (suc left) h = elim (Bool-cases (test at)) [
  | inl here ↦ (at, omega arith, omega arith, here)
  | inr later ↦
      let (i, low, high, found) = any_from-found test (at + 1) left (ground (arith, h, later)) in
      (i, omega (arith, low), omega (arith, high), found)
]

-- The walk along a chain finds its members.
look_in_chain-has :
    (fuel : ℕ) (next prev : Field) (before head t : Ptr) (xs : List Ptr)
    → IsChain next prev before head xs
    → length xs < fuel
    → look_in_chain fuel next t head ≡ some (has t xs)
unfolding look_in_chain
look_in_chain-has zero next prev before head t xs c enough = absurd (omega (arith, enough))
look_in_chain-has (suc fuel) next prev before head t [] c enough = ground (arith, c)
look_in_chain-has (suc fuel) next prev before head t (x ∷ xs) c enough =
    let here : head ≡ x = c.0 in
    ground (
      arith,
      c,
      here,
      ap next here,
      look_in_chain-has fuel next prev x (next x) t xs c.4 (omega (arith, enough)),
    )

module _ (fuel : ℕ) (t : Ptr) (r : Ready) (q : Queues) (v : IsReady r q)
    (enough : (i j : ℕ) → length (q i j) < fuel) where
  look_in_row-any :
      (i j left : ℕ)
      → i < 32
      → j + left ≤ 32
      → look_in_row fuel t r i j left ≡ some (any_from (λ b. has t (q i b)) j left)
  unfolding look_in_row
  look_in_row-any i j zero hi small = refl
  look_in_row-any i j (suc left) hi small =
      let here =
        look_in_chain-has fuel r.next_matrix r.prev_matrix null (r.thread_matrix i j) t (q i j)
          (v.chain i j hi (omega (arith, small))) (enough i j) in
      let later = look_in_row-any i (j + 1) left hi (omega (arith, small)) in
      rw (here, later, look_in_row) (ground arith)

  look_in_rows-any :
      (i left : ℕ)
      → i + left ≤ 32
      → look_in_rows fuel t r i left
        ≡ some (any_from (λ a. any_from (λ b. has t (q a b)) 0 32) i left)
  unfolding look_in_rows
  look_in_rows-any i zero small = refl
  look_in_rows-any i (suc left) small =
      let here = look_in_row-any i 0 32 (omega (arith, small)) (omega arith) in
      let later = look_in_rows-any (i + 1) left (omega (arith, small)) in
      rw (here, later, look_in_rows) (ground arith)

-- In a structure that holds the queues, with more fuel than the longest of them has threads,
-- `lookfor_ss` ends, and it returns true exactly of the threads that are in one of the queues.
pub lookfor_ss-has :
    (fuel : ℕ) (t : Ptr) (r : Ready) (q : Queues)
    → IsReady r q
    → ((i j : ℕ) → length (q i j) < fuel)
    → (b : Bool) × (lookfor_ss fuel t r ≡ some b)
      × ((b ≡ true) ↔ ((i : ℕ) × (j : ℕ) × (has t (q i j) ≡ true)))
unfolding lookfor_ss
lookfor_ss-has fuel t r q v enough = (
  any_from (λ a. any_from (λ b. has t (q a b)) 0 32) 0 32,
  look_in_rows-any fuel t r q v enough 0 32 (omega arith),
  (
    (λ h.
        let (i, li, hi, row) = any_from-found (λ a. any_from (λ b. has t (q a b)) 0 32) 0 32 h in
        let (j, lj, hj, found) = any_from-found (λ b. has t (q i b)) 0 32 row in (i, j, found)),
    (λ h.
        let (i, j, found) = h in
        let place = v.home t i j found in
        any_from-witness (λ a. any_from (λ b. has t (q a b)) 0 32) 0 32 i (omega arith)
          (omega (arith, place.0))
          (any_from-witness (λ b. has t (q i b)) 0 32 j (omega arith) (omega (arith, place.1))
            found)),
  ),
)
