-- ===== src/Ready.antt =====
-- include/ertl_core/sched_struct.h: the structure of ready threads, 32 by 32 chains with a bitmap
-- of the rows and one of the columns of each row. The fields `next_matrix`, `prev_matrix`, `ss_i`
-- and `ss_j` of all the threads stand in maps from the thread's address.
pub mod Prio
pub mod Queues
pub mod Marks
pub mod Unmarks
pub mod Insert
pub mod Tail
pub mod Remove
pub mod Head
pub mod Search
pub mod Init
use l4ertl.Base.{
  ◌&&◌, ℕ, zero, suc, ◌+◌, ◌*◌, ◌/◌, ◌^◌, bit_and, bit_or, Bool, true, false, Option, none, some,
  ◌==◌, ◌||◌, if◌then◌else◌, Ptr, null, update,
}
use l4ertl.Bitmap.{clearbitmap, setbit, clearbit}
use l4ertl.BitOp.{minus_one, ffs}
use l4ertl.Chain.{Field}
use l4ertl.Chain.Tail.{walk}

pub record Ready : Type 0 where
  pub next_matrix : Field
  pub prev_matrix : Field
  pub ss_i : Ptr → ℕ
  pub ss_j : Ptr → ℕ
  pub thread_matrix : ℕ → ℕ → Ptr
  pub flbitmap : ℕ
  pub slbitmap : ℕ → ℕ

-- `thread_matrix [i][j] = t`
abbrev pub set_cell : (ℕ → ℕ → Ptr) → ℕ → ℕ → Ptr → ℕ → ℕ → Ptr
set_cell m i j t = update m i (update (m i) j t)

unfoldable pub prio2ij : ℕ → ℕ × ℕ
prio2ij prio = (bit_and prio 0x3ff / 2 ^ 5, bit_and prio 0x1f)

unfoldable pub ij2prio : ℕ → ℕ → ℕ
ij2prio i j = bit_or (bit_and i 0x1f * 2 ^ 5) (bit_and j 0x1f)

-- A loop that counts up by one: `left` rounds from `at`.
unfoldable pub count_up {ℓ} : {S : Type ℓ} → (ℕ → S → S) → ℕ → ℕ → S → S
count_up round at zero state = state
count_up round at (suc left) state = count_up round (at + 1) left (round at state)

-- The inner loop of `init_ss`, and the round of the outer one.
unfoldable pub init_cell : ℕ → ℕ → Ready → Ready
init_cell cont1 cont2 r = record r { thread_matrix = set_cell r.thread_matrix cont1 cont2 null }

unfoldable pub init_row : ℕ → Ready → Ready
unfolding init_cell count_up
init_row cont1 r =
    count_up (init_cell cont1) 0 32 (record r { slbitmap = update r.slbitmap cont1 clearbitmap })

unfoldable pub init_ss : Ready → Ready
unfolding init_row count_up
init_ss r = record (count_up init_row 0 32 r) { flbitmap = clearbitmap }

-- What both insertions do last.
unfoldable pub mark : Ptr → ℕ → ℕ → Ready → Ready
mark thread i j r = record r {
  flbitmap = setbit r.flbitmap i;
  slbitmap = update r.slbitmap i (setbit (r.slbitmap i) j);
  ss_i = update r.ss_i thread i;
  ss_j = update r.ss_j thread j;
}

-- `insert_ss` once `i` and `j` are known.
unfoldable pub insert_at : Ptr → ℕ → ℕ → Ready → Ready
unfolding mark
insert_at thread i j r =
    let head = r.thread_matrix i j in
    mark thread i j (record r {
      next_matrix = update r.next_matrix thread head;
      prev_matrix =
          if head == null
          then update r.prev_matrix thread null
          else update (update r.prev_matrix thread null) head thread;
      thread_matrix = set_cell r.thread_matrix i j thread;
    })

unfoldable pub insert_ss : Ptr → ℕ → Ready → Ready
unfolding insert_at prio2ij
insert_ss thread priority r = insert_at thread (prio2ij priority).0 (prio2ij priority).1 r

-- The links that `insert_ss_tail` writes, once `aux` is the tail.
unfoldable pub link_tail : Ptr → Ptr → Ready → Ready
link_tail thread aux r = record r {
  next_matrix = update r.next_matrix aux thread;
  prev_matrix = update r.prev_matrix thread aux;
}

-- `thread -> next_matrix = thread -> prev_matrix = NULL`
unfoldable pub reset_links : Ptr → Ready → Ready
reset_links thread r = record r {
  next_matrix = update r.next_matrix thread null;
  prev_matrix = update r.prev_matrix thread null;
}

-- `insert_ss_tail` once `i` and `j` are known; `none` if the walk to the tail runs out of fuel.
unfoldable pub insert_tail_at : ℕ → Ptr → ℕ → ℕ → Ready → Option Ready
unfolding reset_links link_tail mark
insert_tail_at fuel thread i j r =
    let s = reset_links thread r in
    if s.thread_matrix i j == null
    then some (mark thread i j (record s { thread_matrix = set_cell s.thread_matrix i j thread }))
    else elim (walk fuel s.next_matrix (s.thread_matrix i j)) [
      | none ↦ none
      | some aux ↦ some (mark thread i j (link_tail thread aux s))
    ]

unfoldable pub insert_ss_tail : ℕ → Ptr → ℕ → Ready → Option Ready
unfolding insert_tail_at prio2ij
insert_ss_tail fuel thread priority r =
    insert_tail_at fuel thread (prio2ij priority).0 (prio2ij priority).1 r

-- The thread that is found, NULL if there is none, and what is stored in `*priority`.
pub record Best : Type 0 where
  pub thread : Ptr
  pub priority : ℕ

unfoldable pub get_head_ss : Ready → Best
get_head_ss r =
    if r.flbitmap == 0
    then record { thread = null; priority = minus_one }
    else let i = ffs r.flbitmap in
      let j = ffs (r.slbitmap i) in record { thread = r.thread_matrix i j; priority = ij2prio i j }

-- The bitmaps after a chain may have become empty.
unfoldable pub unmark : ℕ → ℕ → Ready → Ready
unmark i j r =
    let empty = r.thread_matrix i j == null in
    let sl = clearbit (r.slbitmap i) j in
    record r {
      slbitmap = if empty then update r.slbitmap i sl else r.slbitmap;
      flbitmap = if empty && sl == 0 then clearbit r.flbitmap i else r.flbitmap;
    }

-- `remove_ss` once `i` and `j` are known.
unfoldable pub remove_at : Ptr → ℕ → ℕ → Ready → Ready
unfolding unmark
remove_at thread i j r =
    let next = r.next_matrix in
    let prev = r.prev_matrix in
    let s = unmark i j (record r {
      next_matrix =
          update (if prev thread == null then next else update next (prev thread) (next thread))
            thread null;
      prev_matrix =
          update (if next thread == null then prev else update prev (next thread) (prev thread))
            thread null;
      thread_matrix =
          if r.thread_matrix i j == thread
          then set_cell r.thread_matrix i j (next thread)
          else r.thread_matrix;
    }) in
    record s { ss_i = update s.ss_i thread minus_one; ss_j = update s.ss_j thread minus_one }

unfoldable pub remove_ss : Ptr → Ready → Ready
unfolding remove_at
remove_ss thread r =
    let i = r.ss_i thread in
    let j = r.ss_j thread in if i == minus_one || j == minus_one then r else remove_at thread i j r

-- The `while` loop of `lookfor_ss`: whether a chain has the thread; `none` if the fuel runs out.
unfoldable pub look_in_chain : ℕ → Field → Ptr → Ptr → Option Bool
look_in_chain zero next thread p = none
look_in_chain (suc fuel) next thread p =
    let rest = look_in_chain fuel next thread (next p) in
    if p == null then some false else if p == thread then some true else rest

-- The inner loop over `left` columns from `j`, and the outer one over `left` rows from `i`.
unfoldable pub look_in_row : ℕ → Ptr → Ready → ℕ → ℕ → ℕ → Option Bool
unfolding look_in_chain
look_in_row fuel thread r i j zero = some false
look_in_row fuel thread r i j (suc left) =
    let rest = look_in_row fuel thread r i (j + 1) left in
    elim (look_in_chain fuel r.next_matrix thread (r.thread_matrix i j)) [
      | none ↦ none
      | some found ↦ if found then some true else rest
    ]

unfoldable pub look_in_rows : ℕ → Ptr → Ready → ℕ → ℕ → Option Bool
unfolding look_in_row
look_in_rows fuel thread r i zero = some false
look_in_rows fuel thread r i (suc left) =
    let rest = look_in_rows fuel thread r (i + 1) left in
    elim (look_in_row fuel thread r i 0 32) [
      | none ↦ none
      | some found ↦ if found then some true else rest
    ]

unfoldable pub lookfor_ss : ℕ → Ptr → Ready → Option Bool
unfolding look_in_rows
lookfor_ss fuel thread r = look_in_rows fuel thread r 0 32
