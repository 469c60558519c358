-- ===== src/Chain/Unlink.antt =====
-- Taking a thread out of a chain by the writes of `remove_ss` and `remove_pthread_list`.
use l4ertl.Base.{
  ◌≡◌, ◌≢◌, true, false, List, [], ◌∷◌, ◌==◌, if◌then◌else◌, Ptr, null, update, arith, inl, inr,
  Bool-cases,
}
use l4ertl.Chain.{Field, has, erase, IsChain, bypass_next, bypass_prev}
use l4ertl.Chain.Laws.{frame, next-mem, prev-mem, has-erase_le, mem-ne-null, prev-head}

module _ (next prev : Field) (t : Ptr) where
  -- The fields after the removal.
  abbrev pub next_out : Field
  next_out = update (bypass_next next prev t) t null

  abbrev pub prev_out : Field
  prev_out = update (bypass_prev next prev t) t null

  -- The thread is the first one of the (rest of the) chain.
  unlink_head :
      (before head x : Ptr) (xs : List Ptr)
      → t ≡ x
      → IsChain next prev before head (x ∷ xs)
      → has before (x ∷ xs) ≡ false
      → IsChain next_out prev_out before (next t) xs
  unlink_head before head x [] e c out = ground arith
  unlink_head before head x (y ∷ ys) e (at, ne, back, once, (at', ne', back', once', rest)) out =
      let kept : next_out y ≡ next y = ground arith in
      (
        ground arith,
        ne',
        ground arith,
        once',
        rw kept (frame next prev next_out prev_out y (next y) ys (λ a h. ground arith) rest),
      )

  -- The successor of another thread after the removal.
  next_out-eq :
      (x : Ptr) (xs : List Ptr)
      → IsChain next prev x (next x) xs
      → has t xs ≡ true
      → has x xs ≡ false
      → x ≢ null
      → next_out x ≡ (if next x == t then next t else next x)
  next_out-eq x xs c h out ne = ground (
    arith,
    prev-mem next prev x (next x) t xs c,
    prev-head next prev x (next x) xs c,
    mem-ne-null next prev x (next x) t xs c,
  )

  -- A chain that holds the thread loses it and keeps all others in order; the thread before the
  -- chain stays before it.
  pub unlink :
      (before head : Ptr) (xs : List Ptr)
      → IsChain next prev before head xs
      → has t xs ≡ true
      → has before xs ≡ false
      → IsChain next_out prev_out before (if head == t then next t else head) (erase t xs)
  unlink before head [] c h out = cc
  unlink before head (x ∷ xs) c h out = elim (Bool-cases (t == x)) [
    | inl e ↦
        let found : (head == t) ≡ true = ground arith in
        rw (found, e) (unlink_head before head x xs (ground arith) c out)
    | inr e ↦
        let missed : (head == t) ≡ false = ground arith in
        let inner : has t xs ≡ true = ground arith in
        let ih = unlink x (next x) xs c.4 inner c.3 in
        let hop = next_out-eq x xs c.4 inner c.3 c.1 in
        rw (e, missed)
          (
            c.0,
            c.1,
            ground (arith, next-mem next prev before head x t xs c),
            has-erase_le x t xs c.3,
            rw hop ih,
          )
  ]

  -- Where the thread is in none of its places, the writes leave a chain alone.
  pub unlink_absent :
      (before head : Ptr) (xs : List Ptr)
      → IsChain next prev before head xs
      → has t xs ≡ false
      → has (prev t) xs ≡ false
      → has (next t) xs ≡ false
      → IsChain next_out prev_out before head xs
  unlink_absent before head xs c h p n =
      frame next prev next_out prev_out before head xs (λ a m. ground arith) c
