-- ===== src/TimerHeap/Laws.antt =====
-- The loops of the heap end.
use l4ertl.Kernel.{failure, success, TimerHeap}
use l4ertl.Base.{
  null, ltb, ◌-◌, ◌∙◌, ap, if◌then◌else◌, Bool, refl, zero, inr, inl, leb, Bool-cases, update,
  arith, suc, some, ◌≡◌, ◌*◌, ◌+◌, ◌<◌, ◌≤◌, Ptr, ℕ,
}
use l4ertl.TimerHeap.{
  place_of, heapify, heap_remove_element, TimerHeap, is_min, least_child, ℕ, sift_down,
}

-- From a place from 1 on, with fuel for one round and such that the place and the fuel together pass
-- the last element, `sift_down` ends, and the heap has as many elements as before.
pub sift_down-ends :
    (fuel : ℕ) (timer_value : Ptr → ℕ) (temp : Ptr) (top : ℕ) (h : TimerHeap)
    → 1 ≤ top
    → 1 ≤ fuel
    → h.nelem < fuel + top
    → (h' : TimerHeap) × (sift_down fuel timer_value temp top (top * 2) h ≡ some h')
      × (h'.nelem ≡ h.nelem)
unfolding sift_down
sift_down-ends zero timer_value temp top h low some_fuel enough = absurd (omega (arith, some_fuel))
sift_down-ends (suc fuel) timer_value temp top h low some_fuel enough =
    let least = least_child timer_value (top * 2) h in
    let moved = record h { array = update (update h.array top (h.array least)) least temp } in
    let rest = sift_down fuel timer_value temp least (least * 2) moved in
    let less = is_min timer_value temp (h.array least) in
    let enters = λ (b : Bool). if b then (if less then some h else rest) else some h in
    let stops = λ (b : Bool). if b then some h else rest in
    elim (Bool-cases (leb (top * 2) h.nelem)) [
      | inl inside ↦ elim (Bool-cases (is_min timer_value temp (h.array least))) [
        | inl stop ↦ (h, ap enters inside ∙ ap stops stop, refl)
        | inr on ↦
            let bounds : (top + 1 ≤ least) × (least ≤ h.nelem) = ground (arith, low, inside) in
            let (h', ends, same) =
              sift_down-ends fuel timer_value temp least moved (omega (arith, bounds))
                (omega (arith, bounds, enough)) (omega (arith, bounds, enough)) in
            (h', ap enters inside ∙ ap stops on ∙ ends, same)
      ]
      | inr outside ↦ (h, ap enters outside, refl)
    ]

place_of-low : (p : Ptr) (array : ℕ → Ptr) (i left : ℕ) → i ≤ place_of p array i left
unfolding place_of
place_of-low p array i zero = omega arith
place_of-low p array i (suc left) =
    let later = place_of-low p array (i + 1) left in ground (arith, later)

heapify-ends :
    (fuel : ℕ) (timer_value : Ptr → ℕ) (top : ℕ) (h : TimerHeap)
    → 1 ≤ top
    → h.nelem < fuel
    → (h' : TimerHeap) × (heapify fuel timer_value top h ≡ some h')
unfolding heapify
heapify-ends fuel timer_value top h low enough =
    let (h', ends, same) =
      sift_down-ends fuel timer_value (h.array top) top h low (omega (arith, enough))
        (omega (arith, enough)) in
    (h', ends)

-- With fuel for the elements and one more, removing an element ends.
pub heap_remove_element-ends :
    (fuel : ℕ) (timer_value : Ptr → ℕ) (p : Ptr) (h : TimerHeap)
    → h.nelem < fuel
    → (r : ℕ × TimerHeap) × (heap_remove_element fuel timer_value p h ≡ some r)
unfolding heap_remove_element
heap_remove_element-ends fuel timer_value p h enough =
    let i = place_of p h.array 1 h.nelem in
    let h1 = record h { array = update h.array i (h.array h.nelem); nelem = h.nelem - 1 } in
    let (h', ends) =
      heapify-ends fuel timer_value i h1 (place_of-low p h.array 1 h.nelem)
        (omega (arith, enough)) in
    elim (Bool-cases (leb i h.nelem)) [
      | inl found ↦ elim (Bool-cases (ltb 1 h.nelem)) [
        | inl more ↦ ((success, h'), rw (found, more, ends) refl)
        | inr last ↦
            ((success, record { array = update h.array i null; nelem = 0 }), rw (found, last) refl)
      ]
      | inr missing ↦ ((failure, h), rw missing refl)
    ]
