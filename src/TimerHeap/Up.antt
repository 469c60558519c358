-- ===== src/TimerHeap/Up.antt =====
-- Inserting a timer.
use l4ertl.Kernel.{TimerHeap, success}
use l4ertl.TimerHeap.Order.{tally-suc, tally-update, IsHeap, one_if, tally, IsOrdered, IsBridged}
use l4ertl.TimerHeap.{success, heap_insert, is_min, sift_up, write_place}
use l4ertl.Base.{
  zero, refl, inr, ltb-ge, ◌∙◌, inl, ◌==◌, ◌+◌, Bool-cases, if◌then◌else◌, ap, Bool, ◌⊎◌, suc,
  arith, update, some, false, true, ◌/◌, ◌≡◌, ◌≢◌, ◌&&◌, ◌<◌, ltb, ◌≤◌, ℕ, Ptr,
}

-- The place `i` is free for the timer `k`: all edges not at it are in order, and `k` expires no later
-- than the timers below it.
pub record IsRising (timer_value : Ptr → ℕ) (k : Ptr) (array : ℕ → Ptr) (n i : ℕ) : Type 0 where
  pub low : 1 ≤ i
  pub high : i ≤ n
  pub edges :
      (c : ℕ)
      → 2 ≤ c
      → c ≤ n
      → c ≢ i
      → c / 2 ≢ i
      → timer_value (array (c / 2)) ≤ timer_value (array c)
  pub below : (c : ℕ) → 2 ≤ c → c ≤ n → c / 2 ≡ i → timer_value k ≤ timer_value (array c)
  pub bridged : IsBridged timer_value array n i

-- Within the array only the place is written.
pub write_place-inside :
    (heap_max_nelem i : ℕ) (p : Ptr) (h : TimerHeap)
    → i < heap_max_nelem
    → write_place heap_max_nelem i p h ≡ record h { array = update h.array i p }
unfolding write_place
write_place-inside heap_max_nelem i p h inside =
    let off : (i == heap_max_nelem) ≡ false = ground (arith, inside) in rw off refl

module _ (timer_value : Ptr → ℕ) (k : Ptr) (n : ℕ) where
  -- Where the loop stops the timer can be put.
  settled :
      (array : ℕ → Ptr) (i : ℕ)
      → IsRising timer_value k array n i
      → (ltb 1 i && is_min timer_value k (array (i / 2))) ≡ false
      → IsOrdered timer_value (update array i k) n
  settled array i v stop =
      λ c p r. ground (arith, stop, v.edges c p r, v.below c p r, v.bridged c p r)

  -- One round moves the father down.
  risen :
      (array : ℕ → Ptr) (i : ℕ)
      → IsRising timer_value k array n i
      → (ltb 1 i && is_min timer_value k (array (i / 2))) ≡ true
      → IsRising timer_value k (update array i (array (i / 2))) n (i / 2)
  risen array i v go =
      let big : 2 ≤ i = ground (arith, go) in
      let less : timer_value k < timer_value (array (i / 2)) = ground (arith, go) in
      record {
        low = omega (arith, big);
        high = omega (arith, v.high);
        edges = λ c p r a b. ground (arith, v.edges c p r, v.bridged c p r, big);
        below = λ c p r a. ground (arith, less, v.edges c p r, v.edges i, v.bridged c p r);
        bridged = λ c p r a b. ground (arith, v.edges c p r, v.edges (i / 2), v.bridged c p r, big);
      }

  -- Putting the timer one place higher leaves the same timers.
  tally-risen :
      (array : ℕ → Ptr) (i : ℕ) (x : Ptr)
      → 2 ≤ i
      → i ≤ n
      → tally x (update (update array i (array (i / 2))) (i / 2) k) n ≡ tally x (update array i k) n
  tally-risen array i x low high =
      let up = update array i (array (i / 2)) in
      let other : up (i / 2) ≡ array (i / 2) = ground (arith, low) in
      omega (
        arith,
        ap (λ (y : Ptr). one_if (y == x)) other,
        tally-update x array i k n (omega (arith, low)) high,
        tally-update x array i (array (i / 2)) n (omega (arith, low)) high,
        tally-update x up (i / 2) k n (omega (arith, low)) (omega (arith, high)),
      )

  -- What the loop from the place `i` leaves, when it stops at `i'`.
  record IsPlaced (array array' : ℕ → Ptr) (i i' : ℕ) : Type 0 where
    ordered : IsOrdered timer_value (update array' i' k) n
    low : 1 ≤ i'
    high : i' ≤ i
    same : (x : Ptr) → tally x (update array' i' k) n ≡ tally x (update array i k) n
    frame : (j : ℕ) → (j ≡ 0) ⊎ (i < j) → array' j ≡ array j

  module _ (heap_max_nelem : ℕ) (fits : n < heap_max_nelem) where
    sift_up-IsPlaced :
        (fuel : ℕ) (array : ℕ → Ptr) (i : ℕ)
        → IsRising timer_value k array n i
        → i < fuel
        → (i' : ℕ) × (array' : ℕ → Ptr) × (sift_up fuel heap_max_nelem timer_value k i
              (record { array = array; nelem = n })
            ≡ some (i', record { array = array'; nelem = n }))
          × IsPlaced array array' i i'
    unfolding sift_up
    sift_up-IsPlaced zero array i v enough = absurd (omega (arith, enough))
    sift_up-IsPlaced (suc fuel) array i v enough =
        let up = update array i (array (i / 2)) in
        let h : TimerHeap = record { array = array; nelem = n } in
        let moved = write_place heap_max_nelem i (array (i / 2)) h in
        let rest = sift_up fuel heap_max_nelem timer_value k (i / 2) moved in
        let turns = λ (b : Bool). if b then rest else some (i, h) in
        elim (Bool-cases (ltb 1 i && is_min timer_value k (array (i / 2)))) [
          | inl go ↦
              let big : 2 ≤ i = ground (arith, go) in
              let inside : moved ≡ record { array = up; nelem = n } =
                write_place-inside heap_max_nelem i (array (i / 2)) h
                  (omega (arith, v.high, fits)) in
              let (i', array', ends, placed) =
                sift_up-IsPlaced fuel up (i / 2) (risen array i v go)
                  (omega (arith, enough, big)) in
              (
                i',
                array',
                ap turns go ∙ ap (sift_up fuel heap_max_nelem timer_value k (i / 2)) inside ∙ ends,
                record {
                  ordered = placed.ordered;
                  low = placed.low;
                  high = omega (arith, placed.high);
                  same = λ x. placed.same x ∙ tally-risen array i x big v.high;
                  frame = λ j far. ground (arith, placed.frame j, far, big);
                },
              )
          | inr stop ↦ (
            i,
            array,
            ap turns stop,
            record {
              ordered = settled array i v stop;
              low = v.low;
              high = omega arith;
              same = λ x. refl;
              frame = λ j far. refl;
            },
          )
        ]

-- The heap `h'` is in order, with the timer `k` besides all that `h` holds, and no other place is written.
pub record IsInserted (timer_value : Ptr → ℕ) (k : Ptr) (h h' : TimerHeap) : Type 0 where
  pub ordered : IsHeap timer_value h'
  pub size : h'.nelem ≡ h.nelem + 1
  pub same : (x : Ptr) → tally x h'.array h'.nelem ≡ tally x h.array h.nelem + one_if (k == x)
  pub frame : (j : ℕ) → (j ≡ 0) ⊎ (h.nelem + 1 < j) → h'.array j ≡ h.array j

-- Into a heap in order that stays within the array with one more timer, and with fuel for a round for
-- each place, `heap_insert` puts the timer.
pub heap_insert-IsInserted :
    (fuel heap_max_nelem : ℕ) (timer_value : Ptr → ℕ) (k : Ptr) (h : TimerHeap)
    → IsHeap timer_value h
    → h.nelem + 1 < heap_max_nelem
    → h.nelem + 1 < fuel
    → (h' : TimerHeap) × (heap_insert fuel heap_max_nelem timer_value k h ≡ some (success, h'))
      × IsInserted timer_value k h h'
unfolding heap_insert
heap_insert-IsInserted fuel heap_max_nelem timer_value k h v room enough =
    let n = h.nelem + 1 in
    let fits : ltb heap_max_nelem n ≡ false = ltb-ge _ _ (omega (arith, room)) in
    let start : IsRising timer_value k h.array n n = record {
      low = omega arith;
      high = omega arith;
      edges = λ c p r a b. v c p (omega (arith, r, a));
      below = λ c p r a. absurd (omega (arith, p, r, a));
      bridged = λ c p r a b. absurd (omega (arith, p, r, a));
    } in
    let (i', array', ends, placed) =
      sift_up-IsPlaced timer_value k n heap_max_nelem room fuel h.array n start enough in
    let inside =
      write_place-inside heap_max_nelem i' k (record { array = array'; nelem = n })
        (omega (arith, placed.high, room)) in
    (
      record { array = update array' i' k; nelem = n },
      rw (fits, ends, heap_insert) (ap (λ h'. some (success, h')) inside),
      record {
        ordered = placed.ordered;
        size = refl;
        same = λ x.
            placed.same x
            ∙ omega (
              arith,
              tally-update x h.array n k n (omega arith) (omega arith),
              tally-suc x h.array h.nelem,
            );
        frame = λ j far. ground (arith, placed.frame j, placed.low, placed.high, far);
      },
    )
