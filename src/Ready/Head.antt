-- ===== src/Ready/Head.antt =====
-- `get_head_ss` finds the thread that is to run.
use l4ertl.Base.{
  refl, inr, inl, ◌==◌, ℕ_discrete, ◌⊎◌, null, sym, subst, dec_lt, ◌+◌, ◌*◌, true, ◌∙◌, ap, ◌≢◌,
  arith, [], false, ◌∷◌, ◌%◌, ◌/◌, ◌≡◌, Ptr, List, ◌<◌, ℕ,
}
use l4ertl.Bits.{test_bit, test_bit-zero}
use l4ertl.BitOp.{ffs, minus_one}
use l4ertl.BitOp.Lowest.{ffs-lowest}
use l4ertl.Chain.{IsChain}
use l4ertl.Ready.{ij2prio, ℕ, Ready, get_head_ss}
use l4ertl.Ready.Prio.{ij2prio-eq}
use l4ertl.Ready.Queues.{Queues, IsReady}

-- The queue of a priority.
abbrev pub queue_of : Queues → ℕ → List Ptr
queue_of q prio = q (prio / 32) (prio % 32)

-- `t` is the first thread of the queue `prio`, and no queue of a smaller number has a thread.
pub record IsHighest (q : Queues) (prio : ℕ) (t : Ptr) : Type 0 where
  pub in_range : prio < 1024
  pub rest : List Ptr
  pub first : queue_of q prio ≡ t ∷ rest
  pub above : (p : ℕ) → p < prio → queue_of q p ≡ []

module _ (r : Ready) (q : Queues) (v : IsReady r q) where
  empty_cell : (a b : ℕ) → a < 32 → b < 32 → test_bit (r.slbitmap a) b ≡ false → q a b ≡ []
  empty_cell a b ha hb h = ground (arith, v.column_bits a b ha hb)

  empty_row : (a b : ℕ) → a < 32 → b < 32 → test_bit r.flbitmap a ≡ false → q a b ≡ []
  empty_row a b ha hb h =
      let columns : r.slbitmap a ≡ 0 = ground (arith, v.row_bits a ha) in
      empty_cell a b ha hb (ap (λ (x : ℕ). test_bit x b) columns ∙ test_bit-zero b)

  -- With no bit in the bitmap of the rows, no queue has a thread.
  all_empty : r.flbitmap ≡ 0 → (p : ℕ) → p < 1024 → queue_of q p ≡ []
  all_empty e p h =
      empty_row (p / 32) (p % 32) (omega arith) (omega arith)
        (ap (λ (x : ℕ). test_bit x (p / 32)) e ∙ test_bit-zero (p / 32))

  module _ (some_row : r.flbitmap ≢ 0) where
    abbrev i : ℕ
    i = ffs r.flbitmap

    abbrev j : ℕ
    j = ffs (r.slbitmap i)

    row :
        (i < 32)
        × (test_bit r.flbitmap i ≡ true)
        × ((a : ℕ) → a < i → test_bit r.flbitmap a ≡ false)
    row = ffs-lowest r.flbitmap some_row v.rows_small

    column :
        (j < 32)
        × (test_bit (r.slbitmap i) j ≡ true)
        × ((b : ℕ) → b < j → test_bit (r.slbitmap i) b ≡ false)
    column =
        ffs-lowest (r.slbitmap i) (ground (arith, v.row_bits i row.0, row.1))
          (v.columns_small i row.0)

    above : (p : ℕ) → p < i * 32 + j → queue_of q p ≡ []
    above p h = elim (dec_lt (p / 32) i) [
      | yes less ↦
          empty_row (p / 32) (p % 32) (omega (arith, row.0)) (omega arith) (row.2 (p / 32) less)
      | no not_less ↦
          let same : p / 32 ≡ i = omega (arith, column.0) in
          subst (λ a. q a (p % 32) ≡ []) (sym same)
            (empty_cell i (p % 32) row.0 (omega arith)
              (column.2 (p % 32) (omega (arith, column.0))))
    ]

    place : (ij2prio i j / 32 ≡ i) × (ij2prio i j % 32 ≡ j)
    place = omega (arith, ij2prio-eq i j row.0 column.0, row.0, column.0)

    IsHighest-of :
        (xs : List Ptr)
        → q i j ≡ xs
        → IsHighest q (ij2prio i j) (r.thread_matrix i j) × (r.thread_matrix i j ≢ null)
    IsHighest-of [] e = absurd (ground (arith, column.1, v.column_bits i j row.0 column.0))
    IsHighest-of (x ∷ xs) e =
        let c =
          subst (IsChain r.next_matrix r.prev_matrix null (r.thread_matrix i j)) e
            (v.chain i j row.0 column.0) in
        (
          record {
            in_range = omega (arith, ij2prio-eq i j row.0 column.0, row.0, column.0);
            rest = xs;
            first = rw (place.0, place.1, e) (ap (λ y. y ∷ xs) (sym c.0));
            above = λ p h. above p (omega (arith, ij2prio-eq i j row.0 column.0));
          },
          ground (arith, c),
        )

-- `get_head_ss` returns NULL and -1 when every queue is empty; otherwise it returns the first thread
-- of a queue, with its priority, such that every queue of a smaller number is empty.
pub get_head_ss-IsHighest :
    (r : Ready) (q : Queues)
    → IsReady r q
    → (((get_head_ss r).thread ≡ null)
        × ((get_head_ss r).priority ≡ minus_one)
        × ((p : ℕ) → p < 1024 → queue_of q p ≡ []))
      ⊎ (((get_head_ss r).thread ≢ null)
          × IsHighest q (get_head_ss r).priority (get_head_ss r).thread)
unfolding get_head_ss
get_head_ss-IsHighest r q v = elim (ℕ_discrete r.flbitmap 0) [
  | yes e ↦
      let zero_test : (r.flbitmap == 0) ≡ true = ground arith in
      rw zero_test (inl (refl, refl, all_empty r q v e))
  | no ne ↦
      let (best, real) = IsHighest-of r q v ne (q (i r q v ne) (j r q v ne)) refl in
      let nonzero : (r.flbitmap == 0) ≡ false = ground arith in rw nonzero (inr (real, best))
]
