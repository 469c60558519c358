-- ===== src/TimerHeap/Insert.antt =====
-- HEAP_insert with and without room in the array.
use l4ertl.Kernel.{TimerHeap, success, failure}
use l4ertl.TimerHeap.{heap_insert}
use l4ertl.TimerHeap.Order.{IsHeap}
use l4ertl.TimerHeap.Up.{heap_insert-IsInserted, IsInserted}
use l4ertl.TimerHeap.Behind.{heap_insert-overwrites}
use l4ertl.Base.{
  refl, inr, inl, ltb, true, lt→ltb, dec_lt, ◌+◌, ◌⊎◌, arith, some, ◌/◌, ◌≡◌, ◌<◌, ℕ, Ptr,
}

-- Of a heap in order, and of fuel for a round for each place: if a further timer makes more than
-- HEAP_MAX_NELEM, `heap_insert` returns -1 and changes nothing; if it makes as many, 0 is returned but
-- the timer or the one at HEAP_MAX_NELEM / 2 is written behind the array, so that its address becomes
-- the number of elements; if it makes fewer, `heap_insert` returns 0 and leaves a heap in order with the
-- new timer besides all that it held, and writes no place but 1 to the new number of elements.
pub heap_insert-cases :
    (fuel heap_max_nelem : ℕ) (timer_value : Ptr → ℕ) (k : Ptr) (h : TimerHeap)
    → IsHeap timer_value h
    → h.nelem + 1 < fuel
    → ((heap_max_nelem < h.nelem + 1)
        × (heap_insert fuel heap_max_nelem timer_value k h ≡ some (failure, h)))
      ⊎ ((h.nelem + 1 ≡ heap_max_nelem)
          × (h' : TimerHeap) × (heap_insert fuel heap_max_nelem timer_value k h
              ≡ some (success, h'))
          × ((h'.nelem ≡ k) ⊎ (h'.nelem ≡ h.array (heap_max_nelem / 2))))
      ⊎ ((h.nelem + 1 < heap_max_nelem)
          × (h' : TimerHeap) × (heap_insert fuel heap_max_nelem timer_value k h
              ≡ some (success, h'))
          × IsInserted timer_value k h h')
unfolding heap_insert
heap_insert-cases fuel heap_max_nelem timer_value k h v enough =
    elim (dec_lt heap_max_nelem (h.nelem + 1)) [
      | yes full ↦
          let test : ltb heap_max_nelem (h.nelem + 1) ≡ true = lt→ltb _ _ full in
          inl (full, rw test refl)
      | no room ↦ elim (dec_lt (h.nelem + 1) heap_max_nelem) [
        | yes inside ↦
            let (h', returns, inserted) =
              heap_insert-IsInserted fuel heap_max_nelem timer_value k h v inside enough in
            inr (inr (inside, h', returns, inserted))
        | no last ↦
            let e : h.nelem + 1 ≡ heap_max_nelem = omega (arith, room, last) in
            let (h', returns, written) =
              heap_insert-overwrites fuel heap_max_nelem timer_value k h e enough in
            inr (inl (e, h', returns, written))
      ]
    ]
