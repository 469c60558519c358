-- ===== src/Ready/Remove.antt =====
-- `remove_ss` takes a thread out of its queue.
use l4ertl.Bits.{test_bit}
use l4ertl.Ready.Unmarks.{unmark-rows_small, unmark-columns, unmark-columns_small, unmark-rows}
use l4ertl.Base.{
  refl, sym, subst, fun_ext, ◌||◌, [], ◌∷◌, not, List, ℕ, ◌<◌, ◌≡◌, ◌⊎◌, inl, inr, true, false,
  ◌&&◌, ◌==◌, if◌then◌else◌, Ptr, null, update, arith, Bool-cases,
}
use l4ertl.BitOp.{minus_one}
use l4ertl.Chain.{nonempty, Field, has, erase, IsChain}
use l4ertl.Chain.Laws.{
  head-nonempty, has-erase_self, has-erase_ne, has_of-has-erase, erase-absent, head-cases, null-mem,
  prev-mem, next-near,
}
use l4ertl.Chain.Unlink.{next_out, prev_out, unlink, unlink_absent}
use l4ertl.Ready.{unmark, remove_ss, remove_at, Ready, set_cell}
use l4ertl.Ready.Queues.{Queues, drop, IsReady}

module _ (r : Ready) (q : Queues) (v : IsReady r q) (t : Ptr) (hi : r.ss_i t < 32)
    (hj : r.ss_j t < 32) where
  abbrev i : ℕ
  i = r.ss_i t

  abbrev j : ℕ
  j = r.ss_j t

  abbrev next : Field
  next = next_out r.next_matrix r.prev_matrix t

  abbrev prev : Field
  prev = prev_out r.next_matrix r.prev_matrix t

  own-IsChain : IsChain r.next_matrix r.prev_matrix null (r.thread_matrix i j) (q i j)
  own-IsChain = v.chain i j hi hj

  -- The structure before the bitmaps are looked at.
  abbrev cells : ℕ → ℕ → Ptr
  cells =
      if r.thread_matrix i j == t
      then set_cell r.thread_matrix i j (r.next_matrix t)
      else r.thread_matrix

  -- The neighbours of the thread are NULL or in its queue.
  near :
      ((r.prev_matrix t ≡ null) ⊎ (has (r.prev_matrix t) (q i j) ≡ true))
      × ((r.next_matrix t ≡ null) ⊎ (has (r.next_matrix t) (q i j) ≡ true))
  near = elim (Bool-cases (has t (q i j))) [
    | inl here ↦ (
      ground (
        arith,
        prev-mem r.next_matrix r.prev_matrix null (r.thread_matrix i j) t (q i j) own-IsChain here,
      ),
      next-near r.next_matrix r.prev_matrix null (r.thread_matrix i j) t (q i j) own-IsChain here,
    )
    | inr gone ↦ ground (arith, v.loose t gone)
  ]

  -- Outside its own queue there is neither the thread nor a neighbour of it.
  elsewhere :
      (a b : ℕ)
      → a < 32
      → b < 32
      → (i == a && j == b) ≡ false
      → (has t (q a b) ≡ false)
        × (has (r.prev_matrix t) (q a b) ≡ false)
        × (has (r.next_matrix t) (q a b) ≡ false)
  elsewhere a b ha hb other = (
    ground (arith, v.home t a b),
    ground (arith, near, nowhere, v.home (r.prev_matrix t) a b, v.home (r.prev_matrix t) i j),
    ground (arith, near, nowhere, v.home (r.next_matrix t) a b, v.home (r.next_matrix t) i j),
  )
    where
      nowhere : has null (q a b) ≡ false
      nowhere =
          null-mem r.next_matrix r.prev_matrix null (r.thread_matrix a b) (q a b)
            (v.chain a b ha hb)

  own_null : has null (q i j) ≡ false
  own_null = null-mem r.next_matrix r.prev_matrix null (r.thread_matrix i j) (q i j) own-IsChain

  own_queue : IsChain next prev null (cells i j) (erase t (q i j))
  own_queue = elim (Bool-cases (has t (q i j))) [
    | inl here ↦
        let cell : cells i j
            ≡ (if r.thread_matrix i j == t then r.next_matrix t else r.thread_matrix i j) =
          ground arith in
        rw cell (
          unlink r.next_matrix r.prev_matrix t null (r.thread_matrix i j) (q i j) own-IsChain here
            own_null)
    | inr gone ↦
        let alone = v.loose t gone in
        let cell : cells i j ≡ r.thread_matrix i j = ground (
          arith,
          head-cases r.next_matrix r.prev_matrix null (r.thread_matrix i j) (q i j) own-IsChain,
        ) in
        rw (cell, erase-absent t (q i j) gone)
          (unlink_absent r.next_matrix r.prev_matrix t null (r.thread_matrix i j) (q i j)
            own-IsChain gone (ground (arith, alone, own_null)) (ground (arith, alone, own_null)))
  ]

  other_queue :
      (a b : ℕ)
      → a < 32
      → b < 32
      → (i == a && j == b) ≡ false
      → IsChain next prev null (cells a b) (erase t (q a b))
  other_queue a b ha hb other =
      let (out, before, after) = elsewhere a b ha hb other in
      let cell : cells a b ≡ r.thread_matrix a b = ground arith in
      rw (cell, erase-absent t (q a b) out)
        (unlink_absent r.next_matrix r.prev_matrix t null (r.thread_matrix a b) (q a b)
          (v.chain a b ha hb) out before after)

  remove-IsChain : (a b : ℕ) → a < 32 → b < 32 → IsChain next prev null (cells a b) (drop t q a b)
  remove-IsChain a b ha hb = elim (Bool-cases (i == a && j == b)) [
    | inl here ↦
        let ei : i ≡ a = ground arith in let ej : j ≡ b = ground arith in rw (← ei, ← ej) own_queue
    | inr gone ↦ other_queue a b ha hb gone
  ]

  remove-home :
      (x : Ptr) (a b : ℕ)
      → has x (drop t q a b) ≡ true
      → (a < 32) × (b < 32) × (update r.ss_i t minus_one x ≡ a) × (update r.ss_j t minus_one x ≡ b)
  remove-home x a b h =
      let (ha, hb, ea, eb) = v.home x a b (has_of-has-erase x t (q a b) h) in
      ground (
        arith,
        has-erase_self r.next_matrix r.prev_matrix null (r.thread_matrix a b) t (q a b)
            (v.chain a b ha hb),
      )

  remove-loose :
      (x : Ptr)
      → has x (drop t q (update r.ss_i t minus_one x) (update r.ss_j t minus_one x)) ≡ false
      → ((update r.ss_i t minus_one x ≡ minus_one) × (update r.ss_j t minus_one x ≡ minus_one))
        ⊎ ((next x ≡ null)
            × (prev x ≡ null)
            × (update r.ss_i t minus_one x < 32)
            × (update r.ss_j t minus_one x < 32))
  remove-loose x h =
      ground (arith, near, v.loose x, v.home x i j, has-erase_ne x t (q (r.ss_i x) (r.ss_j x)))

  abbrev unlinked : Ready
  unlinked = record r { next_matrix = next; prev_matrix = prev; thread_matrix = cells }

  own_emptied : (cells i j == null) ≡ not (nonempty (erase t (q i j)))
  own_emptied = head-nonempty next prev null (cells i j) (erase t (q i j)) own_queue

  fewer : (xs : List Ptr) → nonempty (erase t xs) ≡ true → nonempty xs ≡ true
  fewer [] h = h
  fewer (x ∷ xs) h = refl

  remove-columns :
      (a b : ℕ)
      → a < 32
      → b < 32
      → test_bit ((unmark i j unlinked).slbitmap a) b ≡ nonempty (drop t q a b)
  remove-columns a b ha hb =
      let bits =
        unmark-columns r q v i j hi hj unlinked (erase t (q i j)) refl refl own_emptied
          (fewer (q i j)) a b ha hb in
      elim (Bool-cases (i == a && j == b)) [
        | inl here ↦
            let ei : i ≡ a = ground arith in let ej : j ≡ b = ground arith in ground (arith, bits)
        | inr gone ↦
            let out = (elsewhere a b ha hb gone).0 in
            rw (erase-absent t (q a b) out) (ground (arith, bits))
      ]

  remove_at-IsReady : IsReady (remove_at t i j r) (drop t q)
  unfolding remove_at unmark
  remove_at-IsReady = record {
    chain = remove-IsChain;
    home = remove-home;
    loose = remove-loose;
    column_bits = remove-columns;
    row_bits =
        unmark-rows r q v i j hi hj unlinked (erase t (q i j)) refl refl own_emptied
          (fewer (q i j));
    columns_small =
        unmark-columns_small r q v i j hi hj unlinked (erase t (q i j)) refl refl own_emptied
          (fewer (q i j));
    rows_small =
        unmark-rows_small r q v i j hi hj unlinked (erase t (q i j)) refl refl own_emptied
          (fewer (q i j));
  }

-- A thread in a queue has a place in the structure.
homeless-Absent :
    (r : Ready) (q : Queues) (t : Ptr)
    → IsReady r q
    → (r.ss_i t == minus_one || r.ss_j t == minus_one) ≡ true
    → drop t q ≡ q
homeless-Absent r q t v none =
    fun_ext λ a. fun_ext λ b. erase-absent t (q a b) (ground (arith, v.home t a b))

-- `remove_ss` takes the thread out of its queue, if it is in one, and leaves all others in order.
pub remove_ss-IsReady :
    (r : Ready) (q : Queues) (t : Ptr) → IsReady r q → IsReady (remove_ss t r) (drop t q)
unfolding remove_ss
remove_ss-IsReady r q t v = elim (Bool-cases (r.ss_i t == minus_one || r.ss_j t == minus_one)) [
  | inl none ↦ rw none (subst (IsReady r) (sym (homeless-Absent r q t v none)) v)
  | inr some_place ↦
      let hi : r.ss_i t < 32 = ground (arith, v.loose t, v.home t (r.ss_i t) (r.ss_j t)) in
      let hj : r.ss_j t < 32 = ground (arith, v.loose t, v.home t (r.ss_i t) (r.ss_j t)) in
      rw some_place (remove_at-IsReady r q v t hi hj)
]
