-- ===== src/Ready/Unmarks.antt =====
-- The bitmaps after `remove_ss` has cleared the bits of a row and a column that became empty.
use l4ertl.Base.{ℕ, ◌<◌, ◌≡◌, true, not, ◌&&◌, List, ◌==◌, if◌then◌else◌, Ptr, null, word, arith}
use l4ertl.Bits.{test_bit}
use l4ertl.Bitmap.Laws.{test_bit-clearbit, clearbit-lt, clearbit-le}
use l4ertl.Chain.{nonempty}
use l4ertl.Ready.{Ready, unmark}
use l4ertl.Ready.Queues.{Queues, IsReady}

-- `s` has the bitmaps of `r`, and its cell is NULL exactly if the new queue `xs` is empty.
module _ (r : Ready) (q : Queues) (v : IsReady r q) (i j : ℕ) (hi : i < 32) (hj : j < 32)
    (s : Ready) (xs : List Ptr) (rows : s.flbitmap ≡ r.flbitmap) (columns : s.slbitmap ≡ r.slbitmap)
    (emptied : (s.thread_matrix i j == null) ≡ not (nonempty xs))
    (fewer : nonempty xs ≡ true → nonempty (q i j) ≡ true) where
  pub unmark-columns :
      (a b : ℕ)
      → a < 32
      → b < 32
      → test_bit ((unmark i j s).slbitmap a) b
        ≡ (if i == a && j == b then nonempty xs else nonempty (q a b))
  unfolding unmark
  unmark-columns a b ha hb = rw columns (
      ground (
        arith,
        emptied,
        fewer,
        v.column_bits a b ha hb,
        v.column_bits i j hi hj,
        test_bit-clearbit (r.slbitmap i) j hj b hb,
      ))

  pub unmark-rows :
      (a : ℕ) → a < 32 → test_bit (unmark i j s).flbitmap a ≡ not ((unmark i j s).slbitmap a == 0)
  unfolding unmark
  unmark-rows a ha =
      rw (rows, columns)
        (ground (
          arith,
          v.row_bits a ha,
          test_bit-clearbit r.flbitmap i hi a ha,
          clearbit-le (r.slbitmap i) j hj,
        ))

  pub unmark-columns_small : (a : ℕ) → a < 32 → (unmark i j s).slbitmap a < word
  unfolding unmark
  unmark-columns_small a ha =
      rw columns (
        ground
          (arith, v.columns_small a ha, clearbit-lt (r.slbitmap i) j hj (v.columns_small i hi)))

  pub unmark-rows_small : (unmark i j s).flbitmap < word
  unfolding unmark
  unmark-rows_small =
      rw (rows, columns) (ground (arith, clearbit-lt r.flbitmap i hi v.rows_small, v.rows_small))
