-- ===== src/Tests/TableTests.antt =====
-- The heap of timers and the table of handlers at concrete values.
use l4ertl.TimerHeap.Up.{IsInserted}
use l4ertl.TimerHeap.Insert.{heap_insert-cases}
use l4ertl.TimerHeap.Down.{heap_remove_min-IsHeap}
use l4ertl.TimerHeap.Order.{one_if, tally, IsHeap}
use l4ertl.Kernel.{TimerHeap, success, failure}
use l4ertl.Base.{◌<◌, ◌⊎◌, ◌+◌, ◌≤◌, Ptr, arith, some, ◌≡◌, ◌==◌, ℕ, if◌then◌else◌}
use Prim.Native.Nat.{ℕ}
use l4ertl.SigAction.{sig_ign, SignalAction, OwnHandlers}
use l4ertl.TimerHeap.{heap_remove_min, heap_insert}

abbrev three_timers : TimerHeap
three_timers = record { array = λ i. if i == 1 then 30 else if i == 2 then 20 else 10; nelem = 3 }

abbrev own_handlers : OwnHandlers
own_handlers = record {
  sa_handler_dfl = 1000;
  sa_handler_ign = 1001;
  cancel_thread_handler = 1002;
  sleep_thread_handler = 1003;
  wakeup_thread_handler = 1004;
}

abbrev ignoring : SignalAction
ignoring = record { sa_handler = sig_ign; sa_mask = 64 }

abbrev two_timers : TimerHeap
two_timers = record { array = λ i. if i == 1 then 10 else 20; nelem = 2 }

two_timers-IsHeap : IsHeap (λ t. t) two_timers
two_timers-IsHeap = λ c low high. ground arith

heap_insert-cases_example :
    ((33 < 3) × (heap_insert 4 33 (λ t. t) 5 two_timers ≡ some (failure, two_timers)))
    ⊎ ((two_timers.nelem + 1 ≡ 33)
        × (h' : TimerHeap) × (heap_insert 4 33 (λ t. t) 5 two_timers ≡ some (success, h'))
        × ((h'.nelem ≡ 5) ⊎ (h'.nelem ≡ two_timers.array 16)))
    ⊎ ((3 < 33)
        × (h' : TimerHeap) × (heap_insert 4 33 (λ t. t) 5 two_timers ≡ some (success, h'))
        × IsInserted (λ t. t) 5 two_timers h')
heap_insert-cases_example =
    heap_insert-cases 4 33 (λ t. t) 5 two_timers two_timers-IsHeap (omega arith)

heap_remove_min-IsHeap_example :
    (min : Ptr) × (h' : TimerHeap) × (heap_remove_min 2 (λ t. t) two_timers ≡ some (min, h'))
    × ((i : ℕ) → 1 ≤ i → i ≤ 2 → min ≤ two_timers.array i)
    × IsHeap (λ t. t) h'
    × (h'.nelem + 1 ≡ 2)
    × ((x : Ptr) → tally x h'.array h'.nelem + one_if (min == x) ≡ tally x two_timers.array 2)
heap_remove_min-IsHeap_example =
    heap_remove_min-IsHeap 2 (λ t. t) two_timers two_timers-IsHeap (omega arith) (omega arith)
