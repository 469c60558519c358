-- ===== src/ThreadList/Lists.antt =====
-- The lists of waiting threads of all the objects of a kind, as the thread lists keep them.
use l4ertl.Chain.Laws.{
  next-ne, has-erase_ne, has_of-has-erase, head-cases, push, frame, prev-mem, next-near, null-mem,
}
use l4ertl.Chain.Unlink.{unlink_absent, unlink, next_out, prev_out}
use l4ertl.Chain.{erase, has, IsChain}
use l4ertl.ThreadList.{remove_pthread_list, remove_head_pthread_list, insert_pthread_list}
use l4ertl.Kernel.{Links}
use l4ertl.Base.{
  refl, subst, inr, if◌then◌else◌, inl, ◌==◌, ◌⊎◌, Bool-cases, arith, false, true, ◌≡◌, [], ◌≢◌,
  update, null, ◌∷◌, Ptr, List,
}

-- The chains that the links and the heads make are the lists; no thread is in two of them, and a
-- thread in none has no links.
pub record IsLists (l : Links) (head_of : Ptr → Ptr) (waiters : Ptr → List Ptr) : Type 0 where
  pub chain : (o : Ptr) → IsChain l.next l.prev null (head_of o) (waiters o)
  pub one : (t o o' : Ptr) → has t (waiters o) ≡ true → has t (waiters o') ≡ true → o ≡ o'
  pub loose :
      (t : Ptr) → ((o : Ptr) → has t (waiters o) ≡ false) → (l.next t ≡ null) × (l.prev t ≡ null)

abbrev pub rest_of : List Ptr → List Ptr
rest_of [] = []
rest_of (x ∷ xs) = xs

abbrev pub front_of : List Ptr → Ptr
front_of [] = null
front_of (x ∷ xs) = x

pub IsLists-ext :
    (l l' : Links) (h h' : Ptr → Ptr) (w w' : Ptr → List Ptr)
    → IsLists l h w
    → ((x : Ptr) → (l'.next x ≡ l.next x) × (l'.prev x ≡ l.prev x) × (h' x ≡ h x))
    → ((x : Ptr) → w' x ≡ w x)
    → IsLists l' h' w'
IsLists-ext l l' h h' w w' v same same_w = record {
  chain = λ o.
      rw ((same o).2, same_w o)
        (frame l.next l.prev l'.next l'.prev null (h o) (w o) (λ x m. ((same x).0, (same x).1))
          (v.chain o));
  one = λ t a b ha hb. v.one t a b (ground (arith, ha, same_w a)) (ground (arith, hb, same_w b));
  loose = λ x gone. ground (arith, same x, v.loose x (λ a. ground (arith, gone a, same_w a)));
}

module _ (l : Links) (head_of : Ptr → Ptr) (waiters : Ptr → List Ptr)
    (v : IsLists l head_of waiters) (o : Ptr) where
  -- A thread that waits on nothing, put in front of the list of an object.
  pub insert_pthread_list-IsLists :
      (t : Ptr)
      → t ≢ null
      → ((a : Ptr) → has t (waiters a) ≡ false)
      → IsLists
          (insert_pthread_list (head_of o) t l).links
          (update head_of o (insert_pthread_list (head_of o) t l).head)
          (update waiters o (t ∷ waiters o))
  unfolding insert_pthread_list
  insert_pthread_list-IsLists t ne absent =
      let clear = v.loose t absent in
      record {
        chain = λ a. elim (Bool-cases (o == a)) [
          | inl here ↦ rw here (
              frame _ _ _ _ null t (t ∷ waiters o) (λ x h. ground (arith, clear))
                (push l.next l.prev (head_of o) t (waiters o) (v.chain o) ne (absent o)))
          | inr there ↦ rw there (
              frame l.next l.prev _ _ null (head_of a) (waiters a)
                (λ x h. ground (
                  arith,
                  absent a,
                  there,
                  v.one x a o,
                  head-cases l.next l.prev null (head_of o) (waiters o) (v.chain o),
                ))
                (v.chain a))
        ];
        one = λ x a b ha hb. ground (arith, absent a, absent b, v.one x a b);
        loose = λ x gone. ground (
          arith,
          gone o,
          head-cases l.next l.prev null (head_of o) (waiters o) (v.chain o),
          v.loose x (λ a. ground (arith, gone a, gone o)),
        );
      }

  -- A thread of the list of an object, taken out.
  module _ (t : Ptr) (here : has t (waiters o) ≡ true) where
    near : (l.next t ≡ null) ⊎ (has (l.next t) (waiters o) ≡ true)
    near = next-near l.next l.prev null (head_of o) t (waiters o) (v.chain o) here

    back : ((head_of o ≡ t) × (l.prev t ≡ null)) ⊎ (has (l.prev t) (waiters o) ≡ true)
    back = prev-mem l.next l.prev null (head_of o) t (waiters o) (v.chain o) here

    no_null : (a : Ptr) → has null (waiters a) ≡ false
    no_null a = null-mem l.next l.prev null (head_of a) (waiters a) (v.chain a)

    elsewhere :
        (a x : Ptr) → (o == a) ≡ false → has x (waiters o) ≡ true → has x (waiters a) ≡ false
    elsewhere a x ne h = ground (arith, v.one x a o)

    taken :
        IsLists
          (record { prev = prev_out l.next l.prev t; next = next_out l.next l.prev t })
          (update head_of o (if head_of o == t then l.next t else head_of o))
          (update waiters o (erase t (waiters o)))
    taken = record {
      chain = λ a. elim (Bool-cases (o == a)) [
        | inl same ↦
            rw same
              (unlink l.next l.prev t null (head_of o) (waiters o) (v.chain o) here (no_null o))
        | inr other ↦ rw other (
            unlink_absent l.next l.prev t null (head_of a) (waiters a) (v.chain a)
              (elsewhere a t other here)
              (ground (arith, back, no_null a, elsewhere a (l.prev t) other))
              (ground (arith, near, no_null a, elsewhere a (l.next t) other)))
      ];
      one = λ x a b ha hb. ground (
        arith,
        v.one x a b,
        has_of-has-erase x t (waiters a),
        has_of-has-erase x t (waiters b),
        has_of-has-erase x t (waiters o),
      );
      loose = λ x gone. elim (Bool-cases (t == x)) [
        | inl same ↦ ground (arith, same)
        | inr other ↦
            let out : (a : Ptr) → has x (waiters a) ≡ false =
              λ a. ground (arith, gone a, gone o, other, has-erase_ne x t (waiters o)) in
            ground (arith, other, v.loose x out, out o, near, back)
      ];
    }

    -- A thread of the list of an object, taken out: the list keeps all others in order.
    pub remove_pthread_list-IsLists :
        IsLists
          (remove_pthread_list (head_of o) t l).links
          (update head_of o (remove_pthread_list (head_of o) t l).head)
          (update waiters o (erase t (waiters o)))
    unfolding remove_pthread_list
    remove_pthread_list-IsLists =
        let apart = next-ne l.next l.prev null (head_of o) t (waiters o) (v.chain o) here in
        IsLists-ext _ _ _ _ _ _ taken (λ x. ground (arith, apart)) (λ x. refl)

  remove_head_cases :
      (xs : List Ptr)
      → waiters o ≡ xs
      → IsLists
          (remove_head_pthread_list (head_of o) l).links
          (update head_of o (remove_head_pthread_list (head_of o) l).head)
          (update waiters o (rest_of xs))
        × ((remove_head_pthread_list (head_of o) l).result ≡ front_of xs)
  unfolding remove_head_pthread_list
  remove_head_cases [] e =
      let c = subst (IsChain l.next l.prev null (head_of o)) e (v.chain o) in
      (IsLists-ext _ _ _ _ _ _ v (λ x. ground arith) (λ x. ground (arith, e)), ground arith)
  remove_head_cases (x ∷ xs) e =
      let c = subst (IsChain l.next l.prev null (head_of o)) e (v.chain o) in
      let t = taken x (ground (arith, e)) in
      (IsLists-ext _ _ _ _ _ _ t (λ a. ground arith) (λ a. ground (arith, e)), ground arith)

  -- The first thread of the list, taken out and returned; NULL and nothing else of an empty list.
  pub remove_head_pthread_list-IsLists :
      IsLists
        (remove_head_pthread_list (head_of o) l).links
        (update head_of o (remove_head_pthread_list (head_of o) l).head)
        (update waiters o (rest_of (waiters o)))
      × ((remove_head_pthread_list (head_of o) l).result ≡ front_of (waiters o))
  remove_head_pthread_list-IsLists = remove_head_cases (waiters o) refl
