-- ===== src/Region/Free.antt =====
-- The free blocks stay apart from each other and from what `alloc_region` hands out.
use l4ertl.Chain.Unlink.{unlink, prev_out, next_out}
use l4ertl.Bits.{bit_and-mask, test_bit-bit_or, bit_or-lt, bit_or-disjoint, eq_of_test_bit}
use l4ertl.Chain.Laws.{push, has-erase_self, has_of-has-erase, frame, next-ne, null-mem}
use l4ertl.Bitmap.{complement}
use l4ertl.Chain.{erase, has, IsChain}
use l4ertl.Base.{
  int_ltb, dec_lt, ◌⊎◌, inr, inl, Bool-cases, update, false, ◌∷◌, refl, ℕ_discrete, ==_refl, ◌%◌,
  ◌==◌, ap, if◌then◌else◌, ◌-◌, word, ◌≢◌, ◌∙◌, subst, arith, ◌*◌, ◌≤◌, ◌+◌, true, bit_or, null,
  ◌≡◌, bit_and, ◌^◌, ◌<◌, Ptr, ℕ, List,
}
use l4ertl.Region.{
  min_size, take_block, link_phys, split, rest_size, unlink_block, set_used_block, complement,
  used_block, clear_links, ℕ, Regions,
}

-- The list of the free blocks: none reaches into the next one.
pub record IsFreeList (r : Regions) (xs : List Ptr) : Type 0 where
  pub chain : IsChain r.next r.prev null r.head xs
  pub sizes : (x : Ptr) → has x xs ≡ true → r.size x < 2 ^ 31
  pub apart : (x y : Ptr) → has x xs ≡ true → has y xs ≡ true → x < y → x + 12 + r.size x ≤ y

bit_or_comm : (a b : ℕ) → a < 2 ^ 32 → b < 2 ^ 32 → bit_or a b ≡ bit_or b a
bit_or_comm a b ha hb =
    eq_of_test_bit 32 (bit_or a b) (bit_or b a) (bit_or-lt 32 a b ha hb) (bit_or-lt 32 b a hb ha)
      (λ i h. ground (arith, test_bit-bit_or i a b, test_bit-bit_or i b a))

used_size : (s : ℕ) → s < 2 ^ 31 → bit_and (bit_or s used_block) (complement used_block) ≡ s
used_size s small =
    let joined : bit_or s (1 * 2 ^ 31) ≡ bit_or (1 * 2 ^ 31) s =
      bit_or_comm s (1 * 2 ^ 31) (omega (arith, small)) (omega arith) in
    let sum = bit_or-disjoint 31 1 s small in
    let low = bit_and-mask 31 (bit_or s (1 * 2 ^ 31)) in
    low ∙ (rw (joined, sum) (omega (arith, small)))

module _ (r : Regions) (xs : List Ptr) (v : IsFreeList r xs) (aux : Ptr)
    (here : has aux xs ≡ true) where
  -- The state after the block was taken out of the list.
  abbrev taken : Regions
  taken = clear_links aux (set_used_block aux (unlink_block aux r))

  taken-IsChain : IsChain taken.next taken.prev null taken.head (erase aux xs)
  taken-IsChain =
      let c =
        unlink r.next r.prev aux null r.head xs v.chain here
          (null-mem r.next r.prev null r.head xs v.chain) in
      let loop_free = next-ne r.next r.prev null r.head aux xs v.chain here in
      frame (next_out r.next r.prev aux) (prev_out r.next r.prev aux) taken.next taken.prev null
        taken.head (erase aux xs) (λ a h. (ground (arith, loop_free), ground arith))
        (subst
          (λ p.
            IsChain (next_out r.next r.prev aux) (prev_out r.next r.prev aux) null p (erase aux xs))
          (ground (arith, loop_free)) c)

  -- A block of the rest of the list.
  other_block : (y : Ptr) → has y (erase aux xs) ≡ true → (has y xs ≡ true) × (y ≢ aux)
  other_block y h = (
    has_of-has-erase y aux xs h,
    (λ e. absurd (
        ground (
          arith,
          h,
          e,
          has-erase_self r.next r.prev null r.head aux xs v.chain,
          ap (λ z. has z (erase aux xs)) e,
        ))),
  )

  kept_size : (y : Ptr) → y ≢ aux → taken.size y ≡ r.size y
  kept_size y other = ground (arith, other)

  taken-IsFreeList : IsFreeList taken (erase aux xs)
  taken-IsFreeList = record {
    chain = taken-IsChain;
    sizes =
        λ y h. let (member, other) = other_block y h in rw (kept_size y other) (v.sizes y member);
    apart = λ y z h h' lt.
        let (member, other) = other_block y h in
        rw (kept_size y other) (v.apart y z member (other_block z h').0 lt);
  }

  rest_size-eq :
      (s : ℕ) → s ≤ r.size aux → rest_size aux s taken ≡ (r.size aux + word + word - s - 12) % word
  rest_size-eq s small = rw (==_refl aux, used_size (r.size aux) (v.sizes aux here)) refl

  -- The rest of the block, as a block of its own.
  split-size :
      (s : ℕ)
      → s + 24 ≤ r.size aux
      → (y : Ptr) → y ≢ aux
      → (split aux s taken).size y ≡ (if y == aux + 12 + s then r.size aux - s - 12 else r.size y)
  unfolding split link_phys
  split-size s room y other =
      let small = v.sizes aux here in
      let rest : rest_size aux s taken ≡ r.size aux - s - 12 =
        rest_size-eq s (omega (arith, room)) ∙ omega (arith, small, room) in
      let low : bit_and (r.size aux - s - 12) (complement used_block) ≡ r.size aux - s - 12 =
        bit_and-mask 31 (r.size aux - s - 12) ∙ omega (arith, small) in
      elim (ℕ_discrete y (aux + 12 + s)) [
        | yes e ↦ rw (e, ==_refl (aux + 12 + s), rest, low) (ground arith)
        | no ne ↦ ground (arith, ne, other)
      ]

  -- The new block lies behind the first part and in front of all that was behind the whole.
  new_block-absent : (s : ℕ) → s + 24 ≤ r.size aux → has (aux + 12 + s) (erase aux xs) ≡ false
  new_block-absent s room = elim (Bool-cases (has (aux + 12 + s) (erase aux xs))) [
    | inl h ↦ absurd (
        omega (
          arith,
          room,
          v.apart aux (aux + 12 + s) here (other_block (aux + 12 + s) h).0 (omega arith),
        ))
    | inr h ↦ h
  ]

  split-IsChain :
      (s : ℕ)
      → s + 24 ≤ r.size aux
      → IsChain
          (split aux s taken).next
          (split aux s taken).prev
          null
          (split aux s taken).head
          ((aux + 12 + s) ∷ erase aux xs)
  unfolding split link_phys
  split-IsChain s room =
      let new = aux + 12 + s in
      let absent = new_block-absent s room in
      let c =
        frame taken.next taken.prev (update taken.next new null) taken.prev null taken.head
          (erase aux xs)
          (λ a h.
            let other : a ≢ new =
              (λ e. absurd (ground (arith, h, absent, ap (λ z. has z (erase aux xs)) e))) in
            (ground (arith, other), refl))
          taken-IsChain in
      push (update taken.next new null) taken.prev taken.head new (erase aux xs) c
        (λ e. absurd (omega (arith, e))) absent

  -- A block of the new list is the new one, or one of the others, with its size.
  new_or_other :
      (s : ℕ)
      → s + 24 ≤ r.size aux
      → (y : Ptr) → has y ((aux + 12 + s) ∷ erase aux xs) ≡ true
      → ((y ≡ aux + 12 + s) × ((split aux s taken).size y ≡ r.size aux - s - 12))
        ⊎ ((has y xs ≡ true) × (y ≢ aux) × ((split aux s taken).size y ≡ r.size y))
  new_or_other s room y h = elim (ℕ_discrete y (aux + 12 + s)) [
    | yes e ↦
        inl (e, split-size s room y (λ same. absurd (omega (arith, e, same))) ∙ ground (arith, e))
    | no ne ↦
        let (member, other) = other_block y (ground (arith, h, ne)) in
        inr (member, other, split-size s room y other ∙ ground (arith, ne))
  ]

  split-apart :
      (s : ℕ)
      → s + 24 ≤ r.size aux
      → (y z : Ptr) → has y ((aux + 12 + s) ∷ erase aux xs) ≡ true
      → has z ((aux + 12 + s) ∷ erase aux xs) ≡ true
      → y < z
      → y + 12 + (split aux s taken).size y ≤ z
  split-apart s room y z h h' lt = elim (new_or_other s room y h) [
    | inl (e, size) ↦ elim (new_or_other s room z h') [
      | inl (e', size') ↦ absurd (omega (arith, e, e', lt))
      | inr (member', other', size') ↦
          omega (arith, e, size, lt, room, v.apart aux z here member' (omega (arith, e, lt)))
    ]
    | inr (member, other, size) ↦ elim (new_or_other s room z h') [
      | inl (e', size') ↦ elim (dec_lt y aux) [
        | yes low ↦ omega (arith, size, e', v.apart y aux member here low)
        | no high ↦ absurd (
            omega (
              arith,
              e',
              lt,
              other,
              high,
              room,
              v.apart aux y here member (omega (arith, high, other)),
            ))
      ]
      | inr (member', other', size') ↦ omega (arith, size, v.apart y z member member' lt)
    ]
  ]

  split-IsFreeList :
      (s : ℕ) → s + 24 ≤ r.size aux → IsFreeList (split aux s taken) ((aux + 12 + s) ∷ erase aux xs)
  split-IsFreeList s room = record {
    chain = split-IsChain s room;
    sizes = λ y h. elim (new_or_other s room y h) [
      | inl (e, size) ↦ omega (arith, size, v.sizes aux here)
      | inr (member, other, size) ↦ omega (arith, size, v.sizes y member)
    ];
    apart = split-apart s room;
  }

  -- No free block of a list reaches into the `s` bytes behind the header of the taken block.
  abbrev pub IsOutside : ℕ → Regions → List Ptr → Type 0
  IsOutside s r' ys = (y : Ptr) → has y ys ≡ true → (y + 12 + r'.size y ≤ aux) ⊎ (aux + 12 + s ≤ y)

  other-IsOutside :
      (s y : ℕ)
      → s ≤ r.size aux
      → has y xs ≡ true
      → y ≢ aux
      → (y + 12 + r.size y ≤ aux) ⊎ (aux + 12 + s ≤ y)
  other-IsOutside s y small member other = elim (dec_lt y aux) [
    | yes low ↦ inl (v.apart y aux member here low)
    | no high ↦ inr (omega (arith, small, v.apart aux y here member (omega (arith, high, other))))
  ]

  pub take_block-IsFreeList :
      (s : ℕ)
      → s ≤ r.size aux
      → (ys : List Ptr) × IsFreeList (take_block aux s r) ys × IsOutside s (take_block aux s r) ys
  unfolding take_block
  take_block-IsFreeList s small = elim (Bool-cases (int_ltb (rest_size aux s taken) min_size)) [
    | inl whole ↦ rw whole (
      erase aux xs,
      taken-IsFreeList,
      (λ y h.
          let (member, other) = other_block y h in
          rw (kept_size y other) (other-IsOutside s y small member other)),
    )
    | inr parted ↦
        let room : s + 24 ≤ r.size aux =
          ground (arith, parted, rest_size-eq s small, v.sizes aux here, small) in
        rw parted (
          (aux + 12 + s) ∷ erase aux xs,
          split-IsFreeList s room,
          (λ y h. elim (new_or_other s room y h) [
            | inl (e, size) ↦ inr (omega (arith, e))
            | inr (member, other, size) ↦ rw size (other-IsOutside s y small member other)
          ]),
        )
  ]
