-- ===== src/Ready/Queues.antt =====
-- What the ready structure stands for: a queue of threads for each row and column.
use l4ertl.Base.{
  ℕ, ◌<◌, ◌≡◌, ◌⊎◌, true, false, not, ◌&&◌, List, [], ◌∷◌, ◌++◌, ◌==◌, if◌then◌else◌, Ptr, null,
  word,
}
use l4ertl.Bits.{test_bit}
use l4ertl.BitOp.{minus_one}
use l4ertl.Chain.{has, nonempty, erase, IsChain}
use l4ertl.Ready.{Ready}

abbrev pub Queues : Type 0
Queues = ℕ → ℕ → List Ptr

-- The thread is in no queue.
abbrev pub Absent : Ptr → Queues → Type 0
Absent t q = (i j : ℕ) → has t (q i j) ≡ false

-- The abstract operations: in front of the queue of a row and column, behind it, and out of all.
abbrev pub push_front : Ptr → ℕ → ℕ → Queues → Queues
push_front t i j q a b = if i == a && j == b then t ∷ q a b else q a b

abbrev pub push_back : Ptr → ℕ → ℕ → Queues → Queues
push_back t i j q a b = if i == a && j == b then q a b ++ t ∷ [] else q a b

abbrev pub drop : Ptr → Queues → Queues
drop t q a b = erase t (q a b)

-- The structure holds the queues: every cell heads the chain of its queue; a thread in a queue
-- knows its row and column; a thread in none has no place, or no neighbours; and the bitmaps tell
-- which queues and which rows have threads.
pub record IsReady (r : Ready) (q : Queues) : Type 0 where
  pub chain :
      (i j : ℕ)
      → i < 32
      → j < 32
      → IsChain r.next_matrix r.prev_matrix null (r.thread_matrix i j) (q i j)
  pub home :
      (t : Ptr) (i j : ℕ)
      → has t (q i j) ≡ true
      → (i < 32) × (j < 32) × (r.ss_i t ≡ i) × (r.ss_j t ≡ j)
  pub loose :
      (t : Ptr)
      → has t (q (r.ss_i t) (r.ss_j t)) ≡ false
      → ((r.ss_i t ≡ minus_one) × (r.ss_j t ≡ minus_one))
        ⊎ ((r.next_matrix t ≡ null) × (r.prev_matrix t ≡ null) × (r.ss_i t < 32) × (r.ss_j t < 32))
  pub column_bits : (i j : ℕ) → i < 32 → j < 32 → test_bit (r.slbitmap i) j ≡ nonempty (q i j)
  pub row_bits : (i : ℕ) → i < 32 → test_bit r.flbitmap i ≡ not (r.slbitmap i == 0)
  pub columns_small : (i : ℕ) → i < 32 → r.slbitmap i < word
  pub rows_small : r.flbitmap < word
