-- ===== src/TimerHeap.antt =====
-- server/core/port/heap.c: the heap of timers by their expiration. The elements stand at 1 to
-- `nelem`; `timer_value` is that field of every timer. The loops take fuel. An insertion
-- may write behind the array, which is written out; the other operations access no place above `nelem`,
-- so none behind the array while `nelem` is below HEAP_MAX_NELEM.
pub mod Order
pub mod Up
pub mod Behind
pub mod Insert
pub mod Down
pub mod Laws
use l4ertl.Kernel.{TimerHeap, success, failure}
use l4ertl.Base.{
  true, zero, ◌-◌, ◌/◌, some, ◌&&◌, update, ◌==◌, null, ◌+◌, ◌*◌, ltb, leb, none, Bool,
  if◌then◌else◌, Option, ℕ, Ptr,
}
use Prim.Native.Nat.{suc, ℕ}

-- IS_MIN (T1, T2)
abbrev pub is_min : (Ptr → ℕ) → Ptr → Ptr → Bool
is_min timer_value a b = ltb (timer_value a) (timer_value b)

-- HEAP_init, with HEAP_MAX_NELEM as the argument. The last word that it clears is `nelem`.
unfoldable pub heap_init : ℕ → TimerHeap → TimerHeap
heap_init heap_max_nelem h = record {
  array = λ i. if ltb i heap_max_nelem then null else h.array i;
  nelem = 0;
}

unfoldable pub heap_min : TimerHeap → Ptr
heap_min h = if ltb 0 h.nelem then h.array 1 else null

-- The child that is compared: the right one if there is one and it is less.
abbrev pub least_child : (Ptr → ℕ) → ℕ → TimerHeap → ℕ
least_child timer_value child h =
    if leb child h.nelem
      && leb (child + 1) h.nelem
      && is_min timer_value (h.array (child + 1)) (h.array child)
    then child + 1
    else child

-- The loop of `heapify`; `none` if the fuel runs out.
unfoldable pub sift_down : ℕ → (Ptr → ℕ) → Ptr → ℕ → ℕ → TimerHeap → Option TimerHeap
sift_down zero timer_value tempvalue top child h = none
sift_down (suc fuel) timer_value tempvalue top child h =
    let least = least_child timer_value child h in
    let moved = record h { array = update (update h.array top (h.array least)) least tempvalue } in
    let rest = sift_down fuel timer_value tempvalue least (least * 2) moved in
    if leb child h.nelem
    then if is_min timer_value tempvalue (h.array least) then some h else rest
    else some h

unfoldable pub heapify : ℕ → (Ptr → ℕ) → ℕ → TimerHeap → Option TimerHeap
unfolding sift_down
heapify fuel timer_value top h = sift_down fuel timer_value (h.array top) top (top * 2) h

-- What is returned, and the heap.
unfoldable pub heap_remove_min : ℕ → (Ptr → ℕ) → TimerHeap → Option (Ptr × TimerHeap)
unfolding heapify
heap_remove_min fuel timer_value h =
    if ltb 0 h.nelem
    then elim (heapify fuel timer_value 1
        (record h { array = update h.array 1 (h.array h.nelem); nelem = h.nelem - 1 })) [
          | none ↦ none
          | some h1 ↦ some (h.array 1, h1)
        ]
    else some (null, h)

-- `heap -> array [i] = p`: behind the array, which HEAP_MAX_NELEM bounds, it writes `nelem`.
unfoldable pub write_place : ℕ → ℕ → Ptr → TimerHeap → TimerHeap
write_place heap_max_nelem i p h =
    if i == heap_max_nelem then record h { nelem = p } else record h { array = update h.array i p }

-- The loop of HEAP_insert: where it stops, and the heap then.
unfoldable pub sift_up : ℕ → ℕ → (Ptr → ℕ) → Ptr → ℕ → TimerHeap → Option (ℕ × TimerHeap)
unfolding write_place
sift_up zero heap_max_nelem timer_value k i h = none
sift_up (suc fuel) heap_max_nelem timer_value k i h =
    let moved = write_place heap_max_nelem i (h.array (i / 2)) h in
    let rest = sift_up fuel heap_max_nelem timer_value k (i / 2) moved in
    if ltb 1 i && is_min timer_value k (h.array (i / 2)) then rest else some (i, h)

unfoldable pub heap_insert : ℕ → ℕ → (Ptr → ℕ) → Ptr → TimerHeap → Option (ℕ × TimerHeap)
unfolding sift_up write_place
heap_insert fuel heap_max_nelem timer_value k h =
    if ltb heap_max_nelem (h.nelem + 1)
    then some (failure, h)
    else elim (sift_up fuel heap_max_nelem timer_value k (h.nelem + 1)
        (record h { nelem = h.nelem + 1 })) [
          | none ↦ none
          | some stopped ↦ some (success, write_place heap_max_nelem stopped.0 k stopped.1)
        ]

-- The loop of HEAP_remove_element: the first of `left` places from `i` with the element, or the place
-- after the last.
unfoldable pub place_of : Ptr → (ℕ → Ptr) → ℕ → ℕ → ℕ
place_of k array i zero = i
place_of k array i (suc left) =
    let rest = place_of k array (i + 1) left in if array i == k then i else rest

unfoldable pub heap_remove_element : ℕ → (Ptr → ℕ) → Ptr → TimerHeap → Option (ℕ × TimerHeap)
unfolding heapify place_of
heap_remove_element fuel timer_value k h =
    let i = place_of k h.array 1 h.nelem in
    if leb i h.nelem
    then if ltb 1 h.nelem
      then elim (heapify fuel timer_value i
          (record h { array = update h.array i (h.array h.nelem); nelem = h.nelem - 1 })) [
            | none ↦ none
            | some h1 ↦ some (success, h1)
          ]
      else some (success, record { array = update h.array i null; nelem = 0 })
    else some (failure, h)

-- The loop of HEAP_check_min over the `left` places from `n`.
unfoldable pub min_before : (Ptr → ℕ) → (ℕ → Ptr) → ℕ → ℕ → Bool
min_before timer_value array n zero = true
min_before timer_value array n (suc left) =
    is_min timer_value (array 1) (array n) && min_before timer_value array (n + 1) left

unfoldable pub heap_check_min : (Ptr → ℕ) → TimerHeap → Bool
unfolding min_before
heap_check_min timer_value h = min_before timer_value h.array 2 (h.nelem - 1)
