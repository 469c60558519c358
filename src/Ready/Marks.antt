-- ===== src/Ready/Marks.antt =====
-- The bitmaps after `insert_ss` and `insert_ss_tail` have set the bits of a row and a column.
use l4ertl.Base.{ℕ, ◌<◌, ◌≡◌, ◌≢◌, not, ◌&&◌, ◌||◌, ◌==◌, Ptr, word, arith, ap}
use l4ertl.Bits.{test_bit, test_bit-zero}
use l4ertl.Bitmap.{setbit}
use l4ertl.Bitmap.Laws.{test_bit-setbit, setbit-lt}
use l4ertl.Chain.{nonempty}
use l4ertl.Ready.{Ready, mark}
use l4ertl.Ready.Queues.{Queues, IsReady}

module _ (r : Ready) (q : Queues) (v : IsReady r q) (i j : ℕ) (hi : i < 32) (hj : j < 32) where
  -- A bitmap with a bit set is not 0.
  setbit-ne-zero : (b : ℕ) → setbit b j ≢ 0
  setbit-ne-zero b e =
      ground (arith, test_bit-setbit b j hj j, ap (λ (x : ℕ). test_bit x j) e, test_bit-zero j)

  module _ (t : Ptr) where
    pub mark-columns :
        (a b : ℕ)
        → a < 32
        → b < 32
        → test_bit ((mark t i j r).slbitmap a) b ≡ (nonempty (q a b) || i == a && j == b)
    unfolding mark
    mark-columns a b ha hb = ground (
      arith,
      test_bit-setbit (r.slbitmap i) j hj b,
      v.column_bits a b ha hb,
      v.column_bits i b hi hb,
    )

    pub mark-rows :
        (a : ℕ) → a < 32 → test_bit (mark t i j r).flbitmap a ≡ not ((mark t i j r).slbitmap a == 0)
    unfolding mark
    mark-rows a ha =
        ground
          (arith, test_bit-setbit r.flbitmap i hi a, v.row_bits a ha, setbit-ne-zero (r.slbitmap i))

    pub mark-columns_small : (a : ℕ) → a < 32 → (mark t i j r).slbitmap a < word
    unfolding mark
    mark-columns_small a ha =
        ground (arith, v.columns_small a ha, setbit-lt (r.slbitmap i) j hj (v.columns_small i hi))

    pub mark-rows_small : (mark t i j r).flbitmap < word
    unfolding mark
    mark-rows_small = setbit-lt r.flbitmap i hi v.rows_small
