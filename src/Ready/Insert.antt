-- ===== src/Ready/Insert.antt =====
-- `insert_ss` puts a thread in front of its queue.
use l4ertl.Base.{
  ℕ, ◌<◌, ◌≡◌, ◌≢◌, ◌⊎◌, inl, inr, true, false, ◌&&◌, ◌==◌, Ptr, null, arith, Bool-cases, ==_refl,
}
use l4ertl.BitOp.{minus_one}
use l4ertl.Chain.{has, IsChain}
use l4ertl.Chain.Laws.{frame, push, head-cases}
use l4ertl.Ready.Prio.{prio2ij-lt}
use l4ertl.Ready.{prio2ij, insert_ss, Ready, set_cell, insert_at}
use l4ertl.Ready.Marks.{mark-columns, mark-rows, mark-columns_small, mark-rows_small}
use l4ertl.Ready.Queues.{Queues, Absent, push_front, IsReady}

module _ (r : Ready) (q : Queues) (v : IsReady r q) (i j : ℕ) (hi : i < 32) (hj : j < 32) (t : Ptr)
    (ne : t ≢ null) (absent : Absent t q) where
  -- The first thread of the queue is in no other queue.
  head-elsewhere :
      (a b : ℕ)
      → (i == a && j == b) ≡ false
      → (r.thread_matrix i j ≡ null) ⊎ (has (r.thread_matrix i j) (q a b) ≡ false)
  head-elsewhere a b other =
      let x = r.thread_matrix i j in
      elim (Bool-cases (has x (q a b))) [
        | inl here ↦ ground (
          arith,
          head-cases r.next_matrix r.prev_matrix null x (q i j) (v.chain i j hi hj),
          v.home x a b,
          v.home x i j,
        )
        | inr gone ↦ inr gone
      ]

  insert-IsChain :
      (a b : ℕ)
      → a < 32
      → b < 32
      → IsChain
          (insert_at t i j r).next_matrix
          (insert_at t i j r).prev_matrix
          null
          ((insert_at t i j r).thread_matrix a b)
          (push_front t i j q a b)
  unfolding insert_at
  insert-IsChain a b ha hb = elim (Bool-cases (i == a && j == b)) [
    | inl here ↦
        let ei : i ≡ a = ground arith in
        let ej : j ≡ b = ground arith in
        rw (← ei, ← ej, ==_refl i, ==_refl j)
          (push r.next_matrix r.prev_matrix (r.thread_matrix i j) t (q i j) (v.chain i j hi hj) ne
            (absent i j))
    | inr gone ↦
        let same : set_cell r.thread_matrix i j t a b ≡ r.thread_matrix a b = ground arith in
        rw (gone, same)
          (frame r.next_matrix r.prev_matrix _ _ null (r.thread_matrix a b) (q a b)
            (λ x m. ground (arith, absent a b, head-elsewhere a b gone)) (v.chain a b ha hb))
  ]

  insert-home :
      (x : Ptr) (a b : ℕ)
      → has x (push_front t i j q a b) ≡ true
      → (a < 32) × (b < 32) × ((insert_at t i j r).ss_i x ≡ a) × ((insert_at t i j r).ss_j x ≡ b)
  unfolding insert_at
  insert-home x a b h = ground (arith, v.home x a b, absent a b)

  insert-loose :
      (x : Ptr)
      → has x (push_front t i j q ((insert_at t i j r).ss_i x) ((insert_at t i j r).ss_j x)) ≡ false
      → (((insert_at t i j r).ss_i x ≡ minus_one) × ((insert_at t i j r).ss_j x ≡ minus_one))
        ⊎ (((insert_at t i j r).next_matrix x ≡ null)
            × ((insert_at t i j r).prev_matrix x ≡ null)
            × ((insert_at t i j r).ss_i x < 32)
            × ((insert_at t i j r).ss_j x < 32))
  unfolding insert_at
  insert-loose x h = ground (
    arith,
    v.loose x,
    head-cases r.next_matrix r.prev_matrix null (r.thread_matrix i j) (q i j) (v.chain i j hi hj),
    v.home x i j,
  )

  pub insert_at-IsReady : IsReady (insert_at t i j r) (push_front t i j q)
  insert_at-IsReady = record {
    chain = insert-IsChain;
    home = insert-home;
    loose = insert-loose;
    column_bits =
        λ a b ha hb. unfold insert_at in ground (arith, mark-columns r q v i j hi hj t a b ha hb);
    row_bits = unfold insert_at in mark-rows r q v i j hi hj t;
    columns_small = unfold insert_at in mark-columns_small r q v i j hi hj t;
    rows_small = unfold insert_at in mark-rows_small r q v i j hi hj t;
  }

-- `insert_ss` puts a thread that is not NULL and is in no queue in front of the queue of its priority.
pub insert_ss-IsReady :
    (r : Ready) (q : Queues) (t : Ptr) (prio : ℕ)
    → IsReady r q
    → t ≢ null
    → Absent t q
    → IsReady (insert_ss t prio r) (push_front t (prio2ij prio).0 (prio2ij prio).1 q)
unfolding insert_ss
insert_ss-IsReady r q t prio v ne absent =
    insert_at-IsReady r q v (prio2ij prio).0 (prio2ij prio).1 (prio2ij-lt prio).0
      (prio2ij-lt prio).1 t ne absent
