-- ===== src/Tests/TimeTests.antt =====
-- Times and timers at concrete values.
use l4ertl.Ktimer.Expiry.{expired_iff}
use l4ertl.Time.Create.{timer_create_sys-least, after_create}
use l4ertl.Kernel.{success, done}
use l4ertl.Tests.{some_kernel}
use l4ertl.Base.{◌^◌, ◌+◌, refl, ◌≤◌, inl, ◌⊎◌, ◌<◌, word, ◌/◌, arith, ◌↔◌, true, some, ◌≡◌}
use l4ertl.Time.{timer_create_sys, TimeSpec}
use l4ertl.Ktimer.{expired}

abbrev some_time : TimeSpec
some_time = record { tv_sec = 12; tv_nsec = 345 }

timer_create_sys-least_example :
    timer_create_sys 1 (some 9) some_kernel
    ≡ done (success, some 3) (after_create 3 1 (some 9) some_kernel)
timer_create_sys-least_example =
    timer_create_sys-least 1 3 (some 9) some_kernel (omega arith) (λ j h. ground (arith, h))
      (inl (omega arith, refl))

expired_iff_example : (expired 3000000000 500 ≡ true) ↔ (
    (500 / word < 3000000000 / word)
    ⊎ ((3000000000 / word ≡ 500 / word)
        × (((3000000000 ≤ 500) × (500 ≤ 3000000000 + 2 ^ 31)) ⊎ (500 + 2 ^ 31 ≤ 3000000000))))
expired_iff_example = expired_iff 3000000000 500 (omega arith) (omega arith)
