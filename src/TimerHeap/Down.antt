-- ===== src/TimerHeap/Down.antt =====
-- Taking the first timer out.
use l4ertl.Kernel.{TimerHeap}
use l4ertl.TimerHeap.Order.{
  tally-removed, root_least, one_if, child-cases, tally-swap, tally, IsBridged, IsHeap,
}
use l4ertl.TimerHeap.{TimerHeap, heapify, heap_remove_min, is_min, least_child, sift_down}
use l4ertl.Base.{
  Option, null, none, lt→ltb, true, ltb, ◌-◌, ◌==◌, refl, zero, subst, ◌∙◌, ap, if◌then◌else◌, inr,
  Bool, inl, ◌&&◌, suc, leb, some, Bool-cases, arith, ◌+◌, update, ◌*◌, ◌≢◌, ◌≡◌, ◌<◌, ◌≤◌, ◌/◌, ℕ,
  Ptr,
}

-- The timer at the place `i` may expire too late for its place; all edges not below it are in order.
pub record IsSinking (timer_value : Ptr → ℕ) (array : ℕ → Ptr) (n i : ℕ) : Type 0 where
  pub low : 1 ≤ i
  pub edges :
      (c : ℕ) → 2 ≤ c → c ≤ n → c / 2 ≢ i → timer_value (array (c / 2)) ≤ timer_value (array c)
  pub bridged : IsBridged timer_value array n i

module _ (timer_value : Ptr → ℕ) where
  -- The child that is compared is one of the two, and the other expires no earlier.
  least_child-least :
      (i : ℕ) (h : TimerHeap)
      → 1 ≤ i
      → i * 2 ≤ h.nelem
      → (least_child timer_value (i * 2) h / 2 ≡ i)
        × (least_child timer_value (i * 2) h ≤ h.nelem)
        × (i < least_child timer_value (i * 2) h)
        × ((c : ℕ)
            → c ≤ h.nelem
            → c / 2 ≡ i
            → timer_value (h.array (least_child timer_value (i * 2) h)) ≤ timer_value (h.array c))
  least_child-least i h low inside =
      elim (Bool-cases (
        leb (i * 2) h.nelem
        && leb (i * 2 + 1) h.nelem
        && is_min timer_value (h.array (i * 2 + 1)) (h.array (i * 2)))) [
          | inl right ↦ rw right (
            omega arith,
            ground (arith, right),
            omega (arith, low),
            λ c r a. ground (arith, right, child-cases c i a),
          )
          | inr left ↦ rw left (
            omega arith,
            inside,
            omega (arith, low),
            λ c r a. ground (arith, left, child-cases c i a),
          )
        ]

  -- One round swaps the timer with that child.
  sunk :
      (i m : ℕ) (array : ℕ → Ptr) (n : ℕ)
      → IsSinking timer_value array n i
      → m / 2 ≡ i
      → m ≤ n
      → i < m
      → ((c : ℕ) → c ≤ n → c / 2 ≡ i → timer_value (array m) ≤ timer_value (array c))
      → timer_value (array m) ≤ timer_value (array i)
      → IsSinking timer_value (update (update array i (array m)) m (array i)) n m
  sunk i m array n v father inside beyond least late = record {
    low = omega (arith, v.low, beyond);
    edges = λ c p r a.
        ground (arith, v.edges c p r, v.bridged c p r, least c, v.bridged m, v.low, beyond, father);
    bridged = λ c p r a b. ground (arith, v.edges c p r, father, beyond);
  }

  record IsSunk (h h' : TimerHeap) : Type 0 where
    ordered : IsHeap timer_value h'
    size : h'.nelem ≡ h.nelem
    same : (x : Ptr) → tally x h'.array h.nelem ≡ tally x h.array h.nelem

  sift_down-IsSunk :
      (fuel i : ℕ) (h : TimerHeap)
      → IsSinking timer_value h.array h.nelem i
      → 1 ≤ fuel
      → h.nelem < fuel + i
      → (h' : TimerHeap) × (sift_down fuel timer_value (h.array i) i (i * 2) h ≡ some h')
        × IsSunk h h'
  unfolding sift_down
  sift_down-IsSunk zero i h v some_fuel enough = absurd (omega (arith, some_fuel))
  sift_down-IsSunk (suc fuel) i h v some_fuel enough =
      let m = least_child timer_value (i * 2) h in
      let moved = record h { array = update (update h.array i (h.array m)) m (h.array i) } in
      let rest = sift_down fuel timer_value (h.array i) m (m * 2) moved in
      let less = is_min timer_value (h.array i) (h.array m) in
      let enters = λ (b : Bool). if b then (if less then some h else rest) else some h in
      let stops = λ (b : Bool). if b then some h else rest in
      elim (Bool-cases (leb (i * 2) h.nelem)) [
        | inl inside ↦
            let (father, m_in, beyond, least) =
              least_child-least i h v.low (ground (arith, inside)) in
            elim (Bool-cases less) [
              | inl stop ↦ (
                h,
                ap enters inside ∙ ap stops stop,
                record {
                  ordered = λ c p r. ground (arith, v.edges c p r, least c r, stop);
                  size = refl;
                  same = λ x. refl;
                },
              )
              | inr on ↦
                  let at : moved.array m ≡ h.array i = ground arith in
                  let (h', ends, done) =
                    sift_down-IsSunk fuel m moved
                      (sunk i m h.array h.nelem v father m_in beyond least (ground (arith, on)))
                      (omega (arith, m_in, beyond, enough)) (omega (arith, beyond, enough)) in
                  (
                    h',
                    ap enters inside
                        ∙ ap stops on
                        ∙ subst (λ t. sift_down fuel timer_value t m (m * 2) moved ≡ some h') at
                            ends,
                    record {
                      ordered = done.ordered;
                      size = done.size;
                      same = λ x. done.same x ∙ tally-swap x h.array i m h.nelem v.low beyond m_in;
                    },
                  )
            ]
        | inr outside ↦ (
          h,
          ap enters outside,
          record {
            ordered = λ c p r. ground (arith, v.edges c p r, outside);
            size = refl;
            same = λ x. refl;
          },
        )
      ]

-- From a heap in order that is not empty, with as much fuel as it has elements, `heap_remove_min`
-- returns a timer that no other of the heap precedes, and leaves a heap in order with all the others.
pub heap_remove_min-IsHeap :
    (fuel : ℕ) (timer_value : Ptr → ℕ) (h : TimerHeap)
    → IsHeap timer_value h
    → 1 ≤ h.nelem
    → h.nelem ≤ fuel
    → (min : Ptr) × (h' : TimerHeap) × (heap_remove_min fuel timer_value h ≡ some (min, h'))
      × ((i : ℕ) → 1 ≤ i → i ≤ h.nelem → timer_value min ≤ timer_value (h.array i))
      × IsHeap timer_value h'
      × (h'.nelem + 1 ≡ h.nelem)
      × ((x : Ptr) → tally x h'.array h'.nelem + one_if (min == x) ≡ tally x h.array h.nelem)
unfolding heap_remove_min heapify
heap_remove_min-IsHeap fuel timer_value h v some_timer enough =
    let n = h.nelem - 1 in
    let size : n + 1 ≡ h.nelem = omega (arith, some_timer) in
    let nonempty : ltb 0 h.nelem ≡ true = lt→ltb _ _ (omega (arith, some_timer)) in
    let h1 = record h { array = update h.array 1 (h.array h.nelem); nelem = n } in
    let start : IsSinking timer_value h1.array n 1 = record {
      low = omega arith;
      edges = λ c p r a. ground (arith, v c p, size, r);
      bridged = λ c p r a b. absurd (omega (arith, b));
    } in
    let (h', ends, sunk) =
      sift_down-IsSunk timer_value fuel 1 h1 start (omega (arith, some_timer, enough))
        (omega (arith, size, enough)) in
    (
      h.array 1,
      h',
      ap
            (λ (b : Bool).
              if b
              then elim (sift_down fuel timer_value (h1.array 1) 1 2 h1) [
                | none ↦ none
                | some h2 ↦ some (h.array 1, h2)
              ]
              else some (null, h))
            nonempty
          ∙ ap (λ (o : Option TimerHeap). elim o [ none ↦ none | some h2 ↦ some (h.array 1, h2) ])
              ends,
      (λ i low high. root_least timer_value h.array h.nelem i v low high),
      sunk.ordered,
      omega (arith, sunk.size, size),
      (λ x.
          let left : tally x h'.array h'.nelem ≡ tally x h1.array n =
            ap (tally x h'.array) sunk.size ∙ sunk.same x in
          let last : tally x (update h.array 1 (h.array h.nelem)) n + one_if (h.array 1 == x)
              ≡ tally x h.array h.nelem =
            subst
              (λ (m : ℕ).
                tally x (update h.array 1 (h.array m)) n + one_if (h.array 1 == x)
                ≡ tally x h.array m)
              size (tally-removed x h.array n) in
          ap (λ (t : ℕ). t + one_if (h.array 1 == x)) left ∙ last),
    )
