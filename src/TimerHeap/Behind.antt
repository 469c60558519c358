-- ===== src/TimerHeap/Behind.antt =====
-- Inserting the timer that the array has no place for.
use l4ertl.Kernel.{TimerHeap, success}
use l4ertl.TimerHeap.{heap_insert, is_min, sift_up, write_place}
use l4ertl.TimerHeap.Up.{write_place-inside}
use l4ertl.Base.{
  zero, refl, inr, ltb-ge, ◌∙◌, inl, ◌==◌, ◌+◌, Bool-cases, if◌then◌else◌, ap, Bool, ◌⊎◌, suc,
  arith, update, some, false, true, ◌/◌, ◌≡◌, ◌&&◌, ◌<◌, ltb, ◌≤◌, ℕ, Ptr,
}

-- From a place of the array the loop ends, no higher, and leaves the number of elements.
sift_up-nelem :
    (fuel heap_max_nelem : ℕ) (timer_value : Ptr → ℕ) (k : Ptr) (i : ℕ) (h : TimerHeap)
    → i < heap_max_nelem
    → i < fuel
    → (i' : ℕ) × (h' : TimerHeap) × (sift_up fuel heap_max_nelem timer_value k i h ≡ some (i', h'))
      × (i' ≤ i)
      × (h'.nelem ≡ h.nelem)
unfolding sift_up
sift_up-nelem zero heap_max_nelem timer_value k i h inside enough = absurd (omega (arith, enough))
sift_up-nelem (suc fuel) heap_max_nelem timer_value k i h inside enough =
    let moved = write_place heap_max_nelem i (h.array (i / 2)) h in
    let turns = λ (b : Bool).
      if b then sift_up fuel heap_max_nelem timer_value k (i / 2) moved else some (i, h) in
    elim (Bool-cases (ltb 1 i && is_min timer_value k (h.array (i / 2)))) [
      | inl go ↦
          let big : 1 < i = ground (arith, go) in
          let (i', h', ends, low, same) =
            sift_up-nelem fuel heap_max_nelem timer_value k (i / 2) moved
              (omega (arith, inside, big)) (omega (arith, enough, big)) in
          let kept =
            ap (λ (m : TimerHeap). m.nelem)
              (write_place-inside heap_max_nelem i (h.array (i / 2)) h inside) in
          (i', h', ap turns go ∙ ends, omega (arith, low), same ∙ kept)
      | inr stop ↦ (i, h, ap turns stop, omega arith, refl)
    ]

-- A heap with one timer less than HEAP_MAX_NELEM still takes a further one: `heap_insert` returns 0, but
-- the number of elements is then the address of the new timer or of the one at HEAP_MAX_NELEM / 2, which
-- was written behind the array.
pub heap_insert-overwrites :
    (fuel heap_max_nelem : ℕ) (timer_value : Ptr → ℕ) (k : Ptr) (h : TimerHeap)
    → h.nelem + 1 ≡ heap_max_nelem
    → h.nelem + 1 < fuel
    → (h' : TimerHeap) × (heap_insert fuel heap_max_nelem timer_value k h ≡ some (success, h'))
      × ((h'.nelem ≡ k) ⊎ (h'.nelem ≡ h.array (heap_max_nelem / 2)))
unfolding heap_insert sift_up write_place
heap_insert-overwrites zero heap_max_nelem timer_value k h last enough =
    absurd (omega (arith, enough))
heap_insert-overwrites (suc fuel) heap_max_nelem timer_value k h last enough =
    let n = h.nelem + 1 in
    let fits : ltb heap_max_nelem n ≡ false = ltb-ge _ _ (omega (arith, last)) in
    let behind : (n == heap_max_nelem) ≡ true = ground (arith, last) in
    elim (Bool-cases (ltb 1 n && is_min timer_value k (h.array (n / 2)))) [
      | inl go ↦
          let big : 1 < n = ground (arith, go) in
          let h1 : TimerHeap = record h { nelem = h.array (n / 2) } in
          let (i', h', ends, low, same) =
            sift_up-nelem fuel heap_max_nelem timer_value k (n / 2) h1 (omega (arith, last, big))
              (omega (arith, enough, big)) in
          let inside : (i' == heap_max_nelem) ≡ false = ground (arith, low, last, big) in
          (
            record h' { array = update h'.array i' k },
            rw (fits, go, behind, ends, inside) refl,
            inr (same ∙ ap (λ (m : ℕ). h.array (m / 2)) last),
          )
      | inr stop ↦ (record h { nelem = k }, rw (fits, stop, behind) refl, inl refl)
    ]
