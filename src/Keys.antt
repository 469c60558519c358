-- ===== src/Keys.antt =====
-- The thread-specific data of server/core/port/pthread.c. A key is an int, kept as a word, whose
-- upper half are the negative values; the destructors are code outside the kernel and run no call of
-- it here.
pub mod Laws
use l4ertl.Kernel.{
  set_current, eagain, current, success, set_errno, failure, einval, CleanupRoutine, fail, done,
  Outcome, Key, Kernel,
}
use l4ertl.Base.{
  some, none, ◌-◌, zero, null, ◌||◌, ◌==◌, leb, ◌+◌, int_ltb, Option, if◌then◌else◌, Bool, update,
  Ptr, ℕ,
}
use Prim.Native.Nat.{suc, ℕ}

abbrev pub max_pthread_keys : ℕ
max_pthread_keys = 10

abbrev pub set_key : ℕ → Key → Kernel → Kernel
set_key n v k = record k { keys = update k.keys n v }

-- The loop over the `n` keys from `i` for one that is not in use; where it stops.
unfoldable pub free_key : ℕ → ℕ → Kernel → ℕ
free_key zero i k = i
free_key (suc n) i k = let rest = free_key n (i + 1) k in if (k.keys i).in_use == 0 then i else rest

-- What is returned, and what is stored in `*key`, if `key` is not NULL.
unfoldable pub pthread_key_create_sys : Ptr → Ptr → Kernel → Outcome (ℕ × Option ℕ)
unfolding free_key
pthread_key_create_sys key destructor k =
    let i = free_key max_pthread_keys 0 k in
    if leb max_pthread_keys i
    then done (failure, none) (set_errno eagain k)
    else done (success, (if key == null then none else some i))
        (set_key i (record { in_use = 1; destructor = destructor }) k)

-- `key < 0 || key > MAX_PTHREAD_KEYS - 1 || ! common_key_struct [key].in_use`
abbrev pub bad_key : ℕ → Kernel → Bool
bad_key key k = int_ltb key 0 || int_ltb (max_pthread_keys - 1) key || (k.keys key).in_use == 0

unfoldable pub pthread_setspecific_sys : ℕ → Ptr → Kernel → Outcome ℕ
pthread_setspecific_sys key value k =
    if bad_key key k
    then fail einval k
    else done success
        (set_current (record (current k) { tsd = update (current k).tsd key value }) k)

unfoldable pub pthread_getspecific_sys : ℕ → Kernel → Outcome Ptr
pthread_getspecific_sys key k =
    if bad_key key k then done null (set_errno einval k) else done ((current k).tsd key) k

-- What is returned, and the call of the destructor, with its argument, if it has one.
unfoldable pub pthread_key_delete_sys : ℕ → Kernel → Outcome (ℕ × Option CleanupRoutine)
pthread_key_delete_sys key k =
    if bad_key key k
    then done (failure, none) (set_errno einval k)
    else done
        (
          success,
          (if (k.keys key).destructor == null
              then none
              else some (record { routine = (k.keys key).destructor; arg = (current k).tsd key })),
        )
        (set_key key (record { in_use = 0; destructor = null }) k)
