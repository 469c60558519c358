-- ===== src/Region/Laws.antt =====
-- Which block `alloc_region` returns.
use l4ertl.Region.Free.{take_block-IsFreeList, IsFreeList}
use l4ertl.Chain.{has, IsChain, Field}
use l4ertl.Base.{
  max, subst, ℕ_discrete, refl, inr, Bool-cases, false, ◌==◌, inl, ◌+◌, zero, ◌≤◌, [], ap, ◌⊎◌,
  true, suc, leb, if◌then◌else◌, some, arith, ◌≡◌, ◌∷◌, length, ◌≢◌, null, ◌<◌, List, Ptr, ℕ,
}
use l4ertl.Region.{
  take_block, at_least_min, Field, Regions, alloc_region, link_phys, Ptr, ℕ, first_fit,
}

-- Whether a block of the list is large enough.
abbrev pub first_of_size : (Ptr → ℕ) → ℕ → List Ptr → Ptr
first_of_size sizes size [] = null
first_of_size sizes size (x ∷ xs) = if leb size (sizes x) then x else first_of_size sizes size xs

first_fit-list :
    (fuel : ℕ) (r : Regions) (size : ℕ) (before at : Ptr) (xs : List Ptr)
    → IsChain r.next r.prev before at xs
    → length xs < fuel
    → first_fit fuel r size at ≡ some (first_of_size r.size size xs)
unfolding first_fit
first_fit-list zero r size before at xs c enough = absurd (omega (arith, enough))
first_fit-list (suc fuel) r size before at [] c enough = ground (arith, c)
first_fit-list (suc fuel) r size before at (x ∷ xs) c enough =
    let here : at ≡ x = c.0 in
    let later = first_fit-list fuel r size x (r.next x) xs c.4 (omega (arith, enough)) in
    ground (arith, c.1, here, ap r.next here, ap r.size here, later)

too_small :
    (sizes : Ptr → ℕ) (size x y : ℕ) (xs : List Ptr)
    → leb size (sizes x) ≡ false
    → ((z : Ptr) → has z xs ≡ true → sizes z < size)
    → has y (x ∷ xs) ≡ true
    → sizes y < size
too_small sizes size x y xs little all h = elim (ℕ_discrete y x) [
  | yes here ↦ ground (arith, little, here, ap sizes here)
  | no other ↦ all y (ground (arith, h, other))
]

-- The first block that is large enough is none, and all are too small, or it is one of the list.
first_of_size-cases :
    (sizes : Ptr → ℕ) (size : ℕ) (xs : List Ptr) (next prev : Field) (before at : Ptr)
    → IsChain next prev before at xs
    → ((first_of_size sizes size xs ≡ null) × ((x : Ptr) → has x xs ≡ true → sizes x < size))
      ⊎ ((y : Ptr) × (first_of_size sizes size xs ≡ y)
          × (y ≢ null)
          × (has y xs ≡ true)
          × (size ≤ sizes y))
first_of_size-cases sizes size [] next prev before at c =
    inl (refl, λ x h. absurd (ground (arith, h)))
first_of_size-cases sizes size (x ∷ xs) next prev before at c =
    elim (Bool-cases (leb size (sizes x))) [
      | inl large ↦ inr (x, rw large refl, c.1, ground arith, ground (arith, large))
      | inr little ↦ elim (first_of_size-cases sizes size xs next prev x (next x) c.4) [
        | inl (none_found, all) ↦
            inl (rw little none_found, λ y h. too_small sizes size x y xs little all h)
        | inr (y, found, real, member, fits) ↦
            inr (y, rw little found, real, ground (arith, member), fits)
      ]
    ]

-- What `alloc_region` does for a size, when it looks for a block of the size `wanted`.
abbrev Allocates : ℕ → ℕ → Regions → List Ptr → ℕ → Type 0
Allocates fuel size r xs wanted =
    ((alloc_region fuel size r ≡ some (null, r))
      × ((x : Ptr) → has x xs ≡ true → r.size x < wanted))
    ⊎ ((x : Ptr) × (r' : Regions) × (ys : List Ptr) × (alloc_region fuel size r ≡ some (x + 12, r'))
        × (has x xs ≡ true)
        × (wanted ≤ r.size x)
        × IsFreeList r' ys
        × ((y : Ptr) → has y ys ≡ true → (y + 12 + r'.size y ≤ x) ⊎ (x + 12 + wanted ≤ y)))

alloc_region-Allocates :
    (fuel size : ℕ) (r : Regions) (xs : List Ptr)
    → 0 < size
    → IsFreeList r xs
    → length xs < fuel
    → Allocates fuel size r xs (at_least_min size)
unfolding alloc_region
alloc_region-Allocates fuel size r xs real v enough =
    let some_size : (size == 0) ≡ false = ground (arith, real) in
    let found = first_fit-list fuel r (at_least_min size) null r.head xs v.chain enough in
    elim (first_of_size-cases r.size (at_least_min size) xs r.next r.prev null r.head v.chain) [
      | inl (none_found, all) ↦ inl (rw (some_size, found, none_found, alloc_region) refl, all)
      | inr (x, first, good, member, fits) ↦
          let test : (x == null) ≡ false = ground (arith, good) in
          let (ys, free, outside) =
            take_block-IsFreeList r xs v x member (at_least_min size) fits in
          inr (
            x,
            take_block x (at_least_min size) r,
            ys,
            rw (some_size, found, first, test, alloc_region) refl,
            member,
            fits,
            free,
            outside,
          )
    ]

-- Where no free block of the list reaches into another, with more fuel than the list has blocks, for a
-- size that is not 0: `alloc_region` ends. It returns NULL and changes nothing if all free blocks are
-- smaller than the size or than 12 bytes; or it returns the address 12 behind the header of a free
-- block that is as large as both, and leaves a list in which no free block reaches into another, nor
-- into the bytes that are handed out.
pub alloc_region-IsFreeList :
    (fuel size : ℕ) (r : Regions) (xs : List Ptr)
    → 0 < size
    → IsFreeList r xs
    → length xs < fuel
    → ((alloc_region fuel size r ≡ some (null, r))
        × ((x : Ptr) → has x xs ≡ true → r.size x < max size 12))
      ⊎ ((x : Ptr) × (r' : Regions) × (ys : List Ptr) × (alloc_region fuel size r
            ≡ some (x + 12, r'))
          × (has x xs ≡ true)
          × (max size 12 ≤ r.size x)
          × IsFreeList r' ys
          × ((y : Ptr) → has y ys ≡ true → (y + 12 + r'.size y ≤ x) ⊎ (x + 12 + max size 12 ≤ y)))
alloc_region-IsFreeList fuel size r xs real v enough =
    subst (Allocates fuel size r xs)
      (let whole : at_least_min size ≡ max size 12 = ground arith in whole)
      (alloc_region-Allocates fuel size r xs real v enough)

-- A block that is split is made the neighbour of itself on both sides: nothing leads from the first part
-- over the rest to what is behind it.
pub link_phys-itself :
    (aux new : Ptr) (r : Regions)
    → aux ≢ new
    → new ≢ null
    → ((link_phys aux new r).next_phys new ≡ new) × ((link_phys aux new r).prev_phys new ≡ new)
unfolding link_phys
link_phys-itself aux new r apart real = (ground arith, ground arith)
