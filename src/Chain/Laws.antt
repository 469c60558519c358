-- ===== src/Chain/Laws.antt =====
-- Chains and their members.
use l4ertl.Base.{
  ◌≡◌, ◌≢◌, true, false, not, ◌||◌, List, [], ◌∷◌, ◌++◌, ◌==◌, if◌then◌else◌, Ptr, null, update,
  arith, refl, ◌⊎◌, inl, inr,
}
use l4ertl.Chain.{Field, has, erase, nonempty, IsChain}

pub has-append : (a : Ptr) (xs ys : List Ptr) → has a (xs ++ ys) ≡ (has a xs || has a ys)
has-append a [] ys = refl
has-append a (x ∷ xs) ys = ground (arith, has-append a xs ys)

pub has-erase_ne : (a t : Ptr) (xs : List Ptr) → a ≢ t → has a (erase t xs) ≡ has a xs
has-erase_ne a t [] ne = refl
has-erase_ne a t (x ∷ xs) ne = ground (arith, has-erase_ne a t xs ne)

pub has-erase_le : (a t : Ptr) (xs : List Ptr) → has a xs ≡ false → has a (erase t xs) ≡ false
has-erase_le a t [] h = refl
has-erase_le a t (x ∷ xs) h = ground (arith, has-erase_le a t xs)

pub has_of-has-erase : (a t : Ptr) (xs : List Ptr) → has a (erase t xs) ≡ true → has a xs ≡ true
has_of-has-erase a t [] h = h
has_of-has-erase a t (x ∷ xs) h = ground (arith, has_of-has-erase a t xs)

pub erase-absent : (t : Ptr) (xs : List Ptr) → has t xs ≡ false → erase t xs ≡ xs
erase-absent t [] h = refl
erase-absent t (x ∷ xs) h = ground (arith, erase-absent t xs)

-- A chain survives writes outside it.
pub frame :
    (next prev next' prev' : Field) (before head : Ptr) (xs : List Ptr)
    → ((a : Ptr) → has a xs ≡ true → (next' a ≡ next a) × (prev' a ≡ prev a))
    → IsChain next prev before head xs
    → IsChain next' prev' before head xs
frame next prev next' prev' before head [] same c = c
frame next prev next' prev' before head (x ∷ xs) same (at, ne, back, out, rest) =
    let (n, p) = same x (ground arith) in
    (
      at,
      ne,
      ground arith,
      out,
      rw n (frame next prev next' prev' x (next x) xs (λ a h. same a (ground arith)) rest),
    )

module _ (next prev : Field) where
  -- No thread of a chain is NULL.
  pub mem-ne-null :
      (before head t : Ptr) (xs : List Ptr)
      → IsChain next prev before head xs
      → has t xs ≡ true
      → t ≢ null
  mem-ne-null before head t [] c h = cc
  mem-ne-null before head t (x ∷ xs) c h = ground (arith, mem-ne-null x (next x) t xs c.4)

  -- The successor of a member is NULL or a member behind the first.
  pub next-mem :
      (before head x t : Ptr) (xs : List Ptr)
      → IsChain next prev before head (x ∷ xs)
      → has t (x ∷ xs) ≡ true
      → (next t ≡ null) ⊎ (has (next t) xs ≡ true)
  next-mem before head x t [] c h = ground arith
  next-mem before head x t (y ∷ ys) c h = ground (arith, next-mem x (next x) y t ys c.4)

  -- A neighbour of a member is NULL or a member.
  pub next-near :
      (before head t : Ptr) (xs : List Ptr)
      → IsChain next prev before head xs
      → has t xs ≡ true
      → (next t ≡ null) ⊎ (has (next t) xs ≡ true)
  next-near before head t [] c h = cc
  next-near before head t (x ∷ xs) c h = ground (arith, next-mem before head x t xs c h)

  -- The predecessor of a member is a member, but for the first one.
  pub prev-mem :
      (before head t : Ptr) (xs : List Ptr)
      → IsChain next prev before head xs
      → has t xs ≡ true
      → ((head ≡ t) × (prev t ≡ before)) ⊎ (has (prev t) xs ≡ true)
  prev-mem before head t [] c h = cc
  prev-mem before head t (x ∷ xs) c h = ground (arith, prev-mem x (next x) t xs c.4)

  -- The head of a chain is NULL exactly when the chain is empty.
  pub head-null_iff :
      (before head : Ptr) (xs : List Ptr) → IsChain next prev before head xs → head ≡ null → xs ≡ []
  head-null_iff before head [] c h = refl
  head-null_iff before head (x ∷ xs) c h = absurd (ground arith)

  pub head-cases :
      (before head : Ptr) (xs : List Ptr)
      → IsChain next prev before head xs
      → (head ≡ null) ⊎ (has head xs ≡ true)
  head-cases before head [] c = inl c
  head-cases before head (x ∷ xs) c = inr (ground arith)

  -- The threads of a chain are distinct.
  pub has-erase_self :
      (before head t : Ptr) (xs : List Ptr)
      → IsChain next prev before head xs
      → has t (erase t xs) ≡ false
  has-erase_self before head t [] c = refl
  has-erase_self before head t (x ∷ xs) c = ground (arith, has-erase_self x (next x) t xs c.4)

  -- The head of a chain is NULL exactly when no thread is in it.
  pub head-nonempty :
      (before head : Ptr) (xs : List Ptr)
      → IsChain next prev before head xs
      → (head == null) ≡ not (nonempty xs)
  head-nonempty before head [] c = ground arith
  head-nonempty before head (x ∷ xs) c = ground arith

  pub null-mem :
      (before head : Ptr) (xs : List Ptr) → IsChain next prev before head xs → has null xs ≡ false
  null-mem before head [] c = refl
  null-mem before head (x ∷ xs) c = ground (arith, null-mem x (next x) xs c.4)

  pub prev-head :
      (before head : Ptr) (xs : List Ptr)
      → IsChain next prev before head xs
      → head ≢ null
      → prev head ≡ before
  prev-head before head [] c ne = absurd (ne c)
  prev-head before head (x ∷ xs) c ne = ground arith

  -- Putting a fresh thread in front, the way both insertions write the fields.
  pub push :
      (head t : Ptr) (xs : List Ptr)
      → IsChain next prev null head xs
      → t ≢ null
      → has t xs ≡ false
      → IsChain
          (update next t head)
          (if head == null then update prev t null else update (update prev t null) head t)
          null
          t
          (t ∷ xs)
  push head t [] c ne out = ground arith
  push head t (x ∷ xs) (at, xne, back, once, rest) ne out =
      let kept : update next t head x ≡ next x = ground arith in
      (
        refl,
        ne,
        ground arith,
        out,
        (
          ground arith,
          xne,
          ground arith,
          once,
          rw kept (frame next prev _ _ x (next x) xs (λ a h. ground arith) rest),
        ),
      )

  -- No member is its own successor.
  pub next-ne :
      (before head t : Ptr) (xs : List Ptr)
      → IsChain next prev before head xs
      → has t xs ≡ true
      → next t ≢ t
  next-ne before head t [] c h = cc
  next-ne before head t (x ∷ xs) c h =
      ground (arith, c, h, head-cases x (next x) xs c.4, next-ne x (next x) t xs c.4)
