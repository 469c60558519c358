-- ===== src/Ktimer/Expiry.antt =====
-- Which timers the loop of `update_hwtimer` takes for expired.
use l4ertl.Base.{arith, ◌+◌, ◌≤◌, ◌⊎◌, word, ◌/◌, ◌↔◌, true, ◌≡◌, ◌^◌, ◌<◌, ℕ}
use l4ertl.Ktimer.{ℕ, expired}

-- For times below 2 ^ 63, the loop takes a timer for expired exactly if its high word is greater than that of
-- the clock, which is so only before it expires; or the high words are the same and it has expired for at
-- most 2 ^ 31 nanoseconds, or expires only after at least 2 ^ 31 nanoseconds.
pub expired_iff :
    (v c : ℕ)
    → v < 2 ^ 63
    → c < 2 ^ 63
    → (expired v c ≡ true) ↔ (
        (c / word < v / word)
        ⊎ ((v / word ≡ c / word) × (((v ≤ c) × (c ≤ v + 2 ^ 31)) ⊎ (c + 2 ^ 31 ≤ v))))
unfolding expired
expired_iff v c hv hc = ground arith
