-- ===== src/Keys/Laws.antt =====
-- Keys that are created can be used, and are distinct.
use l4ertl.Kernel.{set_current, current, success, done, Kernel}
use l4ertl.Base.{
  ◌-◌, ltb-ge, int_ltb, refl, update, zero, subst, dec_lt, false, inr, leb, inl, ◌==◌, Bool-cases,
  some, suc, arith, ◌≡◌, null, ◌<◌, ◌+◌, ◌≢◌, Ptr, ◌≤◌, ℕ,
}
use l4ertl.Keys.{
  bad_key, set_key, set_key, max_pthread_keys, pthread_getspecific_sys, Kernel, ℕ,
  pthread_setspecific_sys, pthread_key_create_sys, free_key,
}

-- Where the loop stops, every key before is in use.
free_key-first :
    (n i : ℕ) (k : Kernel)
    → (i ≤ free_key n i k)
      × (free_key n i k ≤ i + n)
      × ((a : ℕ) → i ≤ a → a < free_key n i k → (k.keys a).in_use ≢ 0)
      × (free_key n i k < i + n → (k.keys (free_key n i k)).in_use ≡ 0)
unfolding free_key
free_key-first zero i k = ground arith
free_key-first (suc n) i k =
    let (low, high, before, at) = free_key-first n (i + 1) k in
    elim (Bool-cases ((k.keys i).in_use == 0)) [
      | inl e ↦ rw e (
        omega arith,
        omega arith,
        (λ a h1 h2. absurd (omega (arith, h1, h2))),
        λ h. ground (arith, e),
      )
      | inr e ↦ rw e (
        omega (arith, low),
        omega (arith, high),
        (λ a h1 h2. elim (dec_lt i a) [
          | yes less ↦ before a (omega (arith, less)) h2
          | no not_less ↦
              let same : i ≡ a = omega (arith, h1, not_less) in
              subst (λ b. (k.keys b).in_use ≢ 0) same (ground (arith, e))
        ]),
        λ h. at (omega (arith, h)),
      )
    ]

good_key : (i : ℕ) (k : Kernel) → i < max_pthread_keys → (k.keys i).in_use ≢ 0 → bad_key i k ≡ false
good_key i k small used =
    let low : int_ltb i 0 ≡ false = ltb-ge _ _ (omega (arith, small)) in
    let high : int_ltb (max_pthread_keys - 1) i ≡ false = ltb-ge _ _ (omega (arith, small)) in
    ground (arith, low, high)

read_back :
    (i : ℕ) (k : Kernel) (value : Ptr)
    → bad_key i k ≡ false
    → (current k).tsd i ≡ value
    → pthread_getspecific_sys i k ≡ done value k
unfolding pthread_getspecific_sys
read_back i k value good stored = rw (good, stored) refl

-- If one of the ten keys is free, `pthread_key_create_sys` returns 0 and the first free one, which
-- stands in no use before; then what `pthread_setspecific_sys` stores under it
-- `pthread_getspecific_sys` returns, and every other key of the thread keeps its value.
pub pthread_getspecific_sys-pthread_key_create_sys :
    (key destructor value : Ptr) (k : Kernel) (a : ℕ)
    → key ≢ null
    → a < max_pthread_keys
    → (k.keys a).in_use ≡ 0
    → (i : ℕ) × (k1 : Kernel) × (k2 : Kernel) × (pthread_key_create_sys key destructor k
        ≡ done (success, some i) k1)
      × (i ≤ a)
      × ((k.keys i).in_use ≡ 0)
      × ((b : ℕ) → b < i → (k.keys b).in_use ≢ 0)
      × (pthread_setspecific_sys i value k1 ≡ done success k2)
      × (pthread_getspecific_sys i k2 ≡ done value k2)
      × ((j : ℕ) → j ≢ i → (current k2).tsd j ≡ (current k).tsd j)
unfolding pthread_key_create_sys pthread_setspecific_sys
pthread_getspecific_sys-pthread_key_create_sys key destructor value k a real small idle =
    let i = free_key max_pthread_keys 0 k in
    let (low, high, before, at) = free_key-first max_pthread_keys 0 k in
    let first : i ≤ a = elim (dec_lt a i) [
      | yes h ↦ absurd (before a (omega arith) h idle)
      | no h ↦ omega (arith, h)
    ] in
    let found : leb max_pthread_keys i ≡ false = ground (arith, first, small) in
    let given : (key == null) ≡ false = ground arith in
    let k1 = set_key i (record { in_use = 1; destructor = destructor }) k in
    let good : bad_key i k1 ≡ false = good_key i k1 (omega (arith, first, small)) (ground arith) in
    let k2 = set_current (record (current k1) { tsd = update (current k1).tsd i value }) k1 in
    let good2 : bad_key i k2 ≡ false = good_key i k2 (omega (arith, first, small)) (ground arith) in
    let stored : (current k2).tsd i ≡ value = ground arith in
    (
      i,
      k1,
      k2,
      rw (found, given) refl,
      first,
      at (omega (arith, first, small)),
      (λ b h. before b (omega arith) h),
      rw good refl,
      read_back i k2 value good2 stored,
      λ j ne. ground arith,
    )
