-- ===== src/Ready/Init.antt =====
-- `init_ss` makes the structure that holds no thread.
use l4ertl.Chain.{Field}
use l4ertl.Bitmap.{clearbitmap}
use l4ertl.Bits.{test_bit-zero, test_bit}
use l4ertl.Ready.Queues.{IsReady}
use l4ertl.Base.{
  word, not, sym, ◌≢◌, subst, ℕ_discrete, ◌≤◌, refl, inr, ◌∙◌, ap, ◌∙◌, zero, update, ap, inr, suc,
  ◌+◌, arith, [], ◌==◌, ◌<◌, null, ◌≡◌, Ptr, ℕ,
}
use l4ertl.Ready.{Field, clearbitmap, Ptr, ℕ, init_row, Ready, init_cell, count_up, init_ss}

-- The links and the places of the threads, which neither loop writes.
abbrev SameThreads : Ready → Ready → Type 0
SameThreads r r' =
    (r'.next_matrix ≡ r.next_matrix)
    × (r'.prev_matrix ≡ r.prev_matrix)
    × (r'.ss_i ≡ r.ss_i)
    × (r'.ss_j ≡ r.ss_j)

-- The inner loop clears the columns that it passes and leaves all else.
record ClearsCells (a at left : ℕ) (r r' : Ready) : Type 0 where
  cleared : (j : ℕ) → at ≤ j → j < at + left → r'.thread_matrix a j ≡ null
  before : (j : ℕ) → j < at → r'.thread_matrix a j ≡ r.thread_matrix a j
  others : (i j : ℕ) → i ≢ a → r'.thread_matrix i j ≡ r.thread_matrix i j
  columns : r'.slbitmap ≡ r.slbitmap
  threads : SameThreads r r'

count_up-ClearsCells :
    (a at left : ℕ) (r : Ready) → ClearsCells a at left r (count_up (init_cell a) at left r)
unfolding count_up init_cell
count_up-ClearsCells a at zero r = record {
  cleared = λ j low high. absurd (omega (arith, low, high));
  before = λ j low. refl;
  others = λ i j ne. refl;
  columns = refl;
  threads = (refl, refl, refl, refl);
}
count_up-ClearsCells a at (suc left) r =
    let v = count_up-ClearsCells a (at + 1) left (init_cell a at r) in
    record {
      cleared = λ j low high. elim (ℕ_discrete j at) [
        | yes e ↦ v.before j (omega (arith, e)) ∙ ground (arith, e)
        | no ne ↦ v.cleared j (omega (arith, low, ne)) (omega (arith, high))
      ];
      before = λ j low. v.before j (omega (arith, low)) ∙ ground (arith, low);
      others = λ i j ne. v.others i j ne ∙ ground (arith, ne);
      columns = v.columns;
      threads = v.threads;
    }

-- The outer loop clears the rows that it passes, and leaves those before.
record ClearsRows (at left : ℕ) (r r' : Ready) : Type 0 where
  cleared : (i j : ℕ) → at ≤ i → i < at + left → j < 32 → r'.thread_matrix i j ≡ null
  columns : (i : ℕ) → at ≤ i → i < at + left → r'.slbitmap i ≡ 0
  before : (i j : ℕ) → i < at → r'.thread_matrix i j ≡ r.thread_matrix i j
  columns_before : (i : ℕ) → i < at → r'.slbitmap i ≡ r.slbitmap i
  threads : SameThreads r r'

count_up-ClearsRows : (at left : ℕ) (r : Ready) → ClearsRows at left r (count_up init_row at left r)
unfolding count_up init_row clearbitmap
count_up-ClearsRows at zero r = record {
  cleared = λ i j low high hj. absurd (omega (arith, low, high));
  columns = λ i low high. absurd (omega (arith, low, high));
  before = λ i j low. refl;
  columns_before = λ i low. refl;
  threads = (refl, refl, refl, refl);
}
count_up-ClearsRows at (suc left) r =
    let r1 = record r { slbitmap = update r.slbitmap at clearbitmap } in
    let row = count_up-ClearsCells at 0 32 r1 in
    let v = count_up-ClearsRows (at + 1) left (init_row at r) in
    let columns1 = λ (i : ℕ). ap (λ (f : ℕ → ℕ). f i) row.columns in
    record {
      cleared = λ i j low high hj. elim (ℕ_discrete i at) [
        | yes e ↦
            v.before i j (omega (arith, e))
            ∙ subst (λ a. (init_row at r).thread_matrix a j ≡ null) (sym e)
                (row.cleared j (omega arith) (omega (arith, hj)))
        | no ne ↦ v.cleared i j (omega (arith, low, ne)) (omega (arith, high)) hj
      ];
      columns = λ i low high. elim (ℕ_discrete i at) [
        | yes e ↦ v.columns_before i (omega (arith, e)) ∙ columns1 i ∙ ground (arith, e)
        | no ne ↦ v.columns i (omega (arith, low, ne)) (omega (arith, high))
      ];
      before = λ i j low. v.before i j (omega (arith, low)) ∙ row.others i j (omega (arith, low));
      columns_before =
          λ i low. v.columns_before i (omega (arith, low)) ∙ columns1 i ∙ ground (arith, low);
      threads = (
        v.threads.0 ∙ row.threads.0,
        v.threads.1 ∙ row.threads.1,
        v.threads.2 ∙ row.threads.2,
        v.threads.3 ∙ row.threads.3,
      );
    }

-- Where no thread has neighbours and each has a row and a column, as in a zeroed struct, `init_ss`
-- leaves a structure that holds only empty queues.
pub init_ss-IsReady :
    (r : Ready)
    → ((t : Ptr)
        → (r.next_matrix t ≡ null) × (r.prev_matrix t ≡ null) × (r.ss_i t < 32) × (r.ss_j t < 32))
    → IsReady (init_ss r) (λ i j. [])
unfolding init_ss clearbitmap
init_ss-IsReady r free =
    let none_set : (init_ss r).flbitmap ≡ 0 = refl in
    let v = count_up-ClearsRows 0 32 r in
    let cells =
      λ (i j : ℕ) (hi : i < 32) (hj : j < 32). v.cleared i j (omega arith) (omega (arith, hi)) hj in
    let columns = λ (i : ℕ) (hi : i < 32). v.columns i (omega arith) (omega (arith, hi)) in
    record {
      chain = λ i j hi hj. cells i j hi hj;
      home = λ t i j h. ground arith;
      loose = λ t h. inr (
        ap (λ (f : Field). f t) v.threads.0 ∙ (free t).0,
        ap (λ (f : Field). f t) v.threads.1 ∙ (free t).1,
        subst (λ (f : Ptr → ℕ). f t < 32) (sym v.threads.2) (free t).2,
        subst (λ (f : Ptr → ℕ). f t < 32) (sym v.threads.3) (free t).3,
      );
      column_bits = λ i j hi hj. ap (λ (x : ℕ). test_bit x j) (columns i hi) ∙ test_bit-zero j;
      row_bits = λ i hi.
          ap (λ (x : ℕ). test_bit x i) none_set
          ∙ test_bit-zero i
          ∙ sym (ap (λ (x : ℕ). not (x == 0)) (columns i hi));
      columns_small = λ i hi. subst (λ (x : ℕ). x < word) (sym (columns i hi)) (omega arith);
      rows_small = subst (λ (x : ℕ). x < word) (sym none_set) (omega arith);
    }
