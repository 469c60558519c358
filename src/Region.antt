-- ===== src/Region.antt =====
-- The allocator of memory regions, in server/core/common/l4_sysmem.c with the macros of
-- include/ertl_core/l4/sysmem.h. A block is the address of its header, of 12 bytes; the fields of the
-- headers stand in maps from the address. The arguments `from` and `to` of alloc_region and `size` of
-- dealloc_region are not used. The search has fuel, of which one more than the number of free blocks is enough.
pub mod Laws
pub mod Free
use l4ertl.Bitmap.{complement}
use l4ertl.Base.{
  zero, leb, not, some, ◌||◌, bit_or, ◌%◌, none, word, null, int_ltb, ◌==◌, ltb, bit_and, ◌-◌, ◌+◌,
  update, Bool, if◌then◌else◌, Option, ℕ, Ptr,
}
use Prim.Native.Nat.{suc, bit_or, bit_and, ℕ}
use l4ertl.Chain.{bypass_next, bypass_prev, Field}

-- list_t, by fields, and `list.head`.
pub record Regions : Type 0 where
  pub size : Ptr → ℕ
  pub prev_phys : Field
  pub next_phys : Field
  pub next : Field
  pub prev : Field
  pub head : Ptr

abbrev pub header_size : ℕ
header_size = 12

abbrev pub min_size : ℕ
min_size = 12

abbrev pub used_block : ℕ
used_block = 0x80000000

abbrev pub is_used_block : Regions → Ptr → Bool
is_used_block r x = bit_and (r.size x) used_block == used_block

abbrev pub get_block_size : Regions → Ptr → ℕ
get_block_size r x = bit_and (r.size x) (complement used_block)

abbrev pub set_used_block : Ptr → Regions → Regions
set_used_block x r = record r { size = update r.size x (bit_or (r.size x) used_block) }

abbrev pub set_free_block : Ptr → Regions → Regions
set_free_block x r = record r { size = update r.size x (get_block_size r x) }

-- The only block that `init_vmm` makes, at `base`, of the memory of `bytes` bytes.
unfoldable pub init_list : Ptr → ℕ → Regions → Regions
init_list base bytes r = set_free_block base (record r {
  size = update r.size base (bytes - header_size);
  prev_phys = update r.prev_phys base null;
  next_phys = update r.next_phys base null;
  next = update r.next base null;
  prev = update r.prev base null;
  head = base;
})

-- The loop of `alloc_region`: the first block of that size.
unfoldable pub first_fit : ℕ → Regions → ℕ → Ptr → Option Ptr
first_fit zero r size aux = none
first_fit (suc fuel) r size aux =
    let rest = first_fit fuel r size (r.next aux) in
    if aux == null then some null else if leb size (r.size aux) then some aux else rest

-- A block taken out of the list of the free ones, but for its own links.
abbrev pub unlink_block : Ptr → Regions → Regions
unlink_block x r =
    let prev1 = bypass_prev r.next r.prev x in
    let next1 = bypass_next r.next prev1 x in
    record r { prev = prev1; next = next1; head = if r.head == x then next1 x else r.head }

-- `x -> mem.free_ptr.next = NULL; x -> mem.free_ptr.prev = NULL`
abbrev pub clear_links : Ptr → Regions → Regions
clear_links x r = record r { next = update r.next x null; prev = update r.prev x null }

-- A block put in front of the list of the free ones.
abbrev pub link_first : Ptr → Regions → Regions
link_first x r = record r {
  next = update r.next x r.head;
  prev = if r.head == null then r.prev else update r.prev r.head x;
  head = x;
}

-- `new_size`
abbrev pub rest_size : Ptr → ℕ → Regions → ℕ
rest_size aux size r = (get_block_size r aux + word + word - size - header_size) % word

-- The links of the new block with its neighbours, in the order in which they are written.
unfoldable pub link_phys : Ptr → Ptr → Regions → Regions
link_phys aux new r =
    let next1 = update r.next_phys aux new in
    let next2 = update next1 new (next1 aux) in
    let prev1 = update r.prev_phys new aux in
    record r {
      next_phys = next2;
      prev_phys = if next2 aux == null then prev1 else update prev1 (next2 aux) new;
    }

-- The rest of the block made a free block.
unfoldable pub split : Ptr → ℕ → Regions → Regions
unfolding link_phys
split aux size r =
    let new = aux + header_size + size in
    let r1 =
      set_free_block new
        (clear_links new (record r { size = update r.size new (rest_size aux size r) })) in
    let r2 = link_phys aux new r1 in
    let r3 = set_used_block aux (record r2 { size = update r2.size aux size }) in link_first new r3

-- What is done with the block that is found.
unfoldable pub take_block : Ptr → ℕ → Regions → Regions
unfolding split
take_block aux size r =
    let r1 = clear_links aux (set_used_block aux (unlink_block aux r)) in
    if int_ltb (rest_size aux size r1) min_size then r1 else split aux size r1

-- `if (size < MIN_SIZE) size = MIN_SIZE`
abbrev pub at_least_min : ℕ → ℕ
at_least_min size = if ltb size min_size then min_size else size

unfoldable pub alloc_region : ℕ → ℕ → Regions → Option (Ptr × Regions)
unfolding first_fit take_block
alloc_region fuel size r =
    if size == 0 then some (null, r) else elim (first_fit fuel r (at_least_min size) r.head) [
      | none ↦ none
      | some aux ↦ some (
          if aux == null
          then (null, r)
          else (aux + header_size, take_block aux (at_least_min size) r))
    ]

-- The block joined with the one before it, if that is free: the block that it is then part of.
unfoldable pub join_before : Ptr → Regions → Ptr × Regions
join_before b r =
    let b2 = r.prev_phys b in
    let r1 = record r {
      size = update r.size b2 ((get_block_size r b2 + get_block_size r b + header_size) % word);
    } in
    let r2 = clear_links b2 (set_free_block b2 (unlink_block b2 r1)) in
    let prev1 =
      if r2.next_phys b == null then r2.prev_phys else update r2.prev_phys (r2.next_phys b) b2 in
    if b2 == null || is_used_block r b2
    then (b, r)
    else (b2, record r2 { prev_phys = prev1; next_phys = update r2.next_phys b2 (r2.next_phys b) })

-- The block joined with the one behind it, if that is free.
unfoldable pub join_after : Ptr → Regions → Regions
join_after b r =
    let b2 = r.next_phys b in
    let r1 = record r {
      size = update r.size b ((r.size b + get_block_size r b2 + header_size) % word);
    } in
    let r2 = clear_links b2 (unlink_block b2 r1) in
    let prev1 =
      if r2.next_phys b2 == null then r2.prev_phys else update r2.prev_phys (r2.next_phys b2) b in
    if is_used_block r b2
    then r
    else record r2 { prev_phys = prev1; next_phys = update r2.next_phys b (r2.next_phys b2) }

-- The block goes to the list of the free ones only if there is one behind it.
unfoldable pub dealloc_region : Ptr → Regions → Regions
unfolding join_before join_after
dealloc_region ptr r =
    let b = ptr - header_size in
    let joined = join_before b (clear_links b (set_free_block b r)) in
    if ptr == null || not (is_used_block r b)
    then r
    else if joined.1.next_phys joined.0 == null
    then joined.1
    else link_first joined.0 (join_after joined.0 joined.1)
