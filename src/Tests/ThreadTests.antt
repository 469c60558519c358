-- ===== src/Tests/ThreadTests.antt =====
-- The data and the attributes of a thread at concrete values.
use l4ertl.Keys.Laws.{pthread_getspecific_sys-pthread_key_create_sys}
use l4ertl.Tests.{some_kernel}
use l4ertl.Keys.{pthread_getspecific_sys, pthread_setspecific_sys, pthread_key_create_sys}
use l4ertl.Kernel.{current, success, done, Kernel}
use l4ertl.Base.{refl, arith, ◌≢◌, ◌≤◌, some, ◌≡◌, ◌<◌, ℕ}
use Prim.Native.Nat.{ℕ}

pthread_getspecific_sys-pthread_key_create_sys_example :
    (i : ℕ) × (k1 : Kernel) × (k2 : Kernel) × (pthread_key_create_sys 1 50 some_kernel
      ≡ done (success, some i) k1)
    × (i ≤ 3)
    × ((some_kernel.keys i).in_use ≡ 0)
    × ((b : ℕ) → b < i → (some_kernel.keys b).in_use ≢ 0)
    × (pthread_setspecific_sys i 77 k1 ≡ done success k2)
    × (pthread_getspecific_sys i k2 ≡ done 77 k2)
    × ((j : ℕ) → j ≢ i → (current k2).tsd j ≡ (current some_kernel).tsd j)
pthread_getspecific_sys-pthread_key_create_sys_example =
    pthread_getspecific_sys-pthread_key_create_sys 1 50 77 some_kernel 3 (ground arith)
      (omega arith) refl
