-- ===== src/Ready/Tail.antt =====
-- `insert_ss_tail` puts a thread behind its queue.
use l4ertl.Base.{
  ℕ, ◌<◌, ◌≤◌, ◌≡◌, ◌≢◌, inl, inr, true, false, ◌&&◌, List, [], ◌∷◌, ◌++◌, ◌==◌, Ptr, null, update,
  arith, refl, Bool-cases, ==_refl, some, length, subst,
}
use l4ertl.Chain.{Field, has, IsChain}
use l4ertl.Chain.Laws.{frame, has-append}
use l4ertl.Chain.Tail.{append}
use l4ertl.Chain.{nonempty}
use l4ertl.Ready.Prio.{prio2ij-lt}
use l4ertl.Ready.{
  prio2ij, insert_ss_tail, Ready, set_cell, mark, reset_links, link_tail, insert_tail_at,
}
use l4ertl.Ready.Marks.{mark-columns, mark-rows, mark-columns_small, mark-rows_small}
use l4ertl.Ready.Queues.{Queues, Absent, push_back, IsReady}

-- Clearing the links of a thread in no queue changes nothing else.
reset_links-IsReady :
    (r : Ready) (q : Queues) (t : Ptr) → IsReady r q → Absent t q → IsReady (reset_links t r) q
unfolding reset_links
reset_links-IsReady r q t v absent = record {
  chain = λ a b ha hb.
      frame r.next_matrix r.prev_matrix _ _ null (r.thread_matrix a b) (q a b)
        (λ x m. ground (arith, absent a b)) (v.chain a b ha hb);
  home = v.home;
  loose = λ x h. ground (arith, v.loose x);
  column_bits = v.column_bits;
  row_bits = v.row_bits;
  columns_small = v.columns_small;
  rows_small = v.rows_small;
}

module _ (r : Ready) (q : Queues) (v : IsReady r q) (i j : ℕ) (hi : i < 32) (hj : j < 32) (t : Ptr)
    (absent : Absent t q) where
  -- New links that append the thread to the chain of its queue and touch no thread elsewhere.
  linked-IsReady :
      (next prev : Field) (cells : ℕ → ℕ → Ptr)
      → ((x : Ptr)
          → (x == t) ≡ false
          → has x (q i j) ≡ false
          → (next x ≡ r.next_matrix x) × (prev x ≡ r.prev_matrix x))
      → ((a b : ℕ) → (i == a && j == b) ≡ false → cells a b ≡ r.thread_matrix a b)
      → IsChain next prev null (cells i j) (q i j ++ t ∷ [])
      → IsReady
          (mark t i j (record r { next_matrix = next; prev_matrix = prev; thread_matrix = cells }))
          (push_back t i j q)
  unfolding mark
  linked-IsReady next prev cells same kept chain = record {
    chain = λ a b ha hb. elim (Bool-cases (i == a && j == b)) [
      | inl here ↦
          let ei : i ≡ a = ground arith in
          let ej : j ≡ b = ground arith in rw (← ei, ← ej, ==_refl i, ==_refl j) chain
      | inr gone ↦
          rw (gone, kept a b gone)
            (frame r.next_matrix r.prev_matrix _ _ null (r.thread_matrix a b) (q a b)
              (λ x m.
                same x (ground (arith, absent a b)) (ground (arith, v.home x a b, v.home x i j)))
              (v.chain a b ha hb))
    ];
    home = λ x a b h. ground (arith, v.home x a b, absent a b, has-append x (q a b) (t ∷ []));
    loose = λ x h. ground (
      arith,
      v.loose x,
      v.home x i j,
      same x,
      has-append x (q (update r.ss_i t i x) (update r.ss_j t j x)) (t ∷ []),
    );
    column_bits =
        λ a b ha hb. ground (arith, mark-columns r q v i j hi hj t a b ha hb, filled (q a b));
    row_bits = mark-rows r q v i j hi hj t;
    columns_small = mark-columns_small r q v i j hi hj t;
    rows_small = mark-rows_small r q v i j hi hj t;
  }
    where
      filled : (xs : List Ptr) → nonempty (xs ++ t ∷ []) ≡ true
      filled [] = refl
      filled (x ∷ xs) = refl

-- With fuel for the threads of the queue `insert_ss_tail` returns, and the thread is behind them.
pub insert_tail_at-IsReady :
    (fuel : ℕ) (r : Ready) (q : Queues) (i j : ℕ) (t : Ptr)
    → IsReady r q
    → i < 32
    → j < 32
    → t ≢ null
    → Absent t q
    → length (q i j) ≤ fuel
    → (s : Ready) × (insert_tail_at fuel t i j r ≡ some s) × IsReady s (push_back t i j q)
unfolding insert_tail_at
insert_tail_at-IsReady fuel r q i j t v hi hj ne absent enough = cases (q i j) refl
  where
    s : Ready
    s = reset_links t r

    v' : IsReady s q
    v' = reset_links-IsReady r q t v absent

    reset_next : s.next_matrix t ≡ null
    reset_next = unfold reset_links in ground arith

    reset_prev : s.prev_matrix t ≡ null
    reset_prev = unfold reset_links in ground arith

    cases :
        (xs : List Ptr)
        → q i j ≡ xs
        → (s : Ready) × (insert_tail_at fuel t i j r ≡ some s) × IsReady s (push_back t i j q)
    cases [] e =
        let c =
          subst (IsChain s.next_matrix s.prev_matrix null (s.thread_matrix i j)) e
            (v'.chain i j hi hj) in
        let linked =
          linked-IsReady s q v' i j hi hj t absent s.next_matrix s.prev_matrix
            (set_cell s.thread_matrix i j t) (λ x p m. (refl, refl)) (λ a b o. ground arith)
            (rw e (ground arith)) in
        (_, ground (arith, c), linked)
    cases (x ∷ xs) e =
        let c =
          subst (IsChain s.next_matrix s.prev_matrix null (s.thread_matrix i j)) e
            (v'.chain i j hi hj) in
        let out : has t (x ∷ xs) ≡ false = ground (arith, absent i j) in
        let l =
          append s.next_matrix s.prev_matrix t reset_next ne fuel null (s.thread_matrix i j) x xs c
            out (rw e at enough) in
        let linked =
          linked-IsReady s q v' i j hi hj t absent (update s.next_matrix l.last t)
            (update s.prev_matrix t l.last) s.thread_matrix (λ y p m. ground (arith, l.member))
            (λ a b o. refl) (rw e l.chain) in
        let full : (s.thread_matrix i j == null) ≡ false = ground (arith, c) in
        (_, unfold link_tail in rw (full, l.found), linked)

-- `insert_ss_tail`, with fuel for the threads of the queue, returns and puts a thread that is in no
-- queue behind the queue of its priority.
pub insert_ss_tail-IsReady :
    (fuel : ℕ) (r : Ready) (q : Queues) (t : Ptr) (prio : ℕ)
    → IsReady r q
    → t ≢ null
    → Absent t q
    → length (q (prio2ij prio).0 (prio2ij prio).1) ≤ fuel
    → (s : Ready) × (insert_ss_tail fuel t prio r ≡ some s)
      × IsReady s (push_back t (prio2ij prio).0 (prio2ij prio).1 q)
unfolding insert_ss_tail
insert_ss_tail-IsReady fuel r q t prio v ne absent enough =
    insert_tail_at-IsReady fuel r q (prio2ij prio).0 (prio2ij prio).1 t v (prio2ij-lt prio).0
      (prio2ij-lt prio).1 ne absent enough
