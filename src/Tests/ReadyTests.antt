-- ===== src/Tests/ReadyTests.antt =====
-- The ready structure and its bits at concrete values.
use l4ertl.Ready.Search.{lookfor_ss-has}
use l4ertl.Chain.{has}
use l4ertl.Ready.Tail.{insert_ss_tail-IsReady}
use l4ertl.Ready.Head.{get_head_ss-IsHighest, IsHighest, queue_of}
use l4ertl.BitOp.Lowest.{ffs-lowest}
use l4ertl.Ready.Insert.{insert_ss-IsReady}
use l4ertl.Ready.Remove.{remove_ss-IsReady}
use l4ertl.Bits.{test_bit}
use l4ertl.Base.{Bool, length, ◌↔◌, ◌≢◌, refl, ◌⊎◌, [], false, some, arith, true, null, ◌≡◌, ◌<◌, ℕ}
use l4ertl.Ready.Queues.{push_back, push_front, drop, IsReady}
use l4ertl.BitOp.{minus_one, ffs}
use l4ertl.Ready.{lookfor_ss, insert_ss_tail, Ready, remove_ss, prio2ij, insert_ss, get_head_ss}
use l4ertl.Tests.{
  no_ready-IsReady, insert_ss-IsReady, one_ready-IsReady, no_queues, no_ready, one_ready, one_queue,
}
use Prim.Native.Nat.{ℕ}

ffs-lowest_example :
    (ffs 40 < 32) × (test_bit 40 (ffs 40) ≡ true) × ((j : ℕ) → j < ffs 40 → test_bit 40 j ≡ false)
ffs-lowest_example = ffs-lowest 40 (ground arith) (omega arith)

insert_ss-IsReady_example :
    IsReady (insert_ss 7 40 no_ready) (push_front 7 (prio2ij 40).0 (prio2ij 40).1 no_queues)
insert_ss-IsReady_example =
    insert_ss-IsReady no_ready no_queues 7 40 no_ready-IsReady (ground arith) (λ i j. refl)

insert_ss_tail-IsReady_example :
    (s : Ready) × (insert_ss_tail 4 8 40 one_ready ≡ some s)
    × IsReady s (push_back 8 (prio2ij 40).0 (prio2ij 40).1 one_queue)
unfolding one_queue prio2ij
insert_ss_tail-IsReady_example =
    insert_ss_tail-IsReady 4 one_ready one_queue 8 40 one_ready-IsReady (ground arith)
      (λ i j. ground arith) (omega arith)

remove_ss-IsReady_example : IsReady (remove_ss 7 one_ready) (drop 7 one_queue)
remove_ss-IsReady_example = remove_ss-IsReady one_ready one_queue 7 one_ready-IsReady

get_head_ss-IsHighest_example :
    (((get_head_ss one_ready).thread ≡ null)
      × ((get_head_ss one_ready).priority ≡ minus_one)
      × ((p : ℕ) → p < 1024 → queue_of one_queue p ≡ []))
    ⊎ (((get_head_ss one_ready).thread ≢ null)
        × IsHighest one_queue (get_head_ss one_ready).priority (get_head_ss one_ready).thread)
get_head_ss-IsHighest_example = get_head_ss-IsHighest one_ready one_queue one_ready-IsReady

short_queues : (i j : ℕ) → length (one_queue i j) < 2
unfolding one_queue
short_queues i j = ground arith

lookfor_ss-has_example :
    (b : Bool) × (lookfor_ss 2 7 one_ready ≡ some b)
    × ((b ≡ true) ↔ ((i : ℕ) × (j : ℕ) × (has 7 (one_queue i j) ≡ true)))
lookfor_ss-has_example = lookfor_ss-has 2 7 one_ready one_queue one_ready-IsReady short_queues
