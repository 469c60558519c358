-- ===== src/Chain/Tail.antt =====
-- The walk to the last thread of a chain (`while (aux -> next_matrix)` of `insert_ss_tail`), and
-- linking a thread behind it.
use l4ertl.Base.{
  ℕ, zero, suc, ◌≤◌, ◌≡◌, ◌≢◌, true, false, List, [], ◌∷◌, ◌++◌, ◌==◌, if◌then◌else◌, Ptr, null,
  update, arith, Option, none, some, length,
}
use l4ertl.Chain.{Field, has, IsChain}
use l4ertl.Chain.Laws.{has-append}

-- The rounds are the fuel; `none` means that it ran out.
unfoldable pub walk : ℕ → Field → Ptr → Option Ptr
walk zero next aux = none
walk (suc fuel) next aux =
    let rest = walk fuel next (next aux) in if next aux == null then some aux else rest

-- What the walk from `head` finds, and what linking `t` behind it gives.
pub record IsLinked (fuel : ℕ) (next prev : Field) (before head t : Ptr) (xs : List Ptr)
    : Type 0 where
  pub last : Ptr
  pub found : walk fuel next head ≡ some last
  pub member : has last xs ≡ true
  pub chain : IsChain (update next last t) (update prev t last) before head (xs ++ t ∷ [])

module _ (next prev : Field) (t : Ptr) (reset : next t ≡ null) (ne : t ≢ null) where
  -- On a chain of at least one thread, as many rounds as it has threads reach its last one, and
  -- linking a fresh thread behind that one appends it to the chain.
  pub append :
      (fuel : ℕ) (before head x : Ptr) (xs : List Ptr)
      → IsChain next prev before head (x ∷ xs)
      → has t (x ∷ xs) ≡ false
      → length (x ∷ xs) ≤ fuel
      → IsLinked fuel next prev before head t (x ∷ xs)
  unfolding walk
  append zero before head x xs c out f = absurd (omega arith)
  append (suc fuel) before head x [] c out f = record {
    last = x;
    found = ground arith;
    member = ground arith;
    chain = ground arith;
  }
  append (suc fuel) before head x (y ∷ ys) c out f =
      let ih = append fuel x (next x) y ys c.4 (ground arith) (omega arith) in
      let kept : update next ih.last t x ≡ next x = ground (arith, ih.member) in
      record {
        last = ih.last;
        found = ground (arith, ih.found);
        member = ground (arith, ih.member);
        chain = (
          c.0,
          c.1,
          ground arith,
          ground (arith, has-append x (y ∷ ys) (t ∷ [])),
          rw kept ih.chain,
        );
      }
