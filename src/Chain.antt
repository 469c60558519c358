-- ===== src/Chain.antt =====
-- Doubly linked chains of threads through two fields, `next` and `prev`, as the ready structure
-- (sched_struct.h) and the thread lists (pthread_list.h) build them. Shared by both.
pub mod Laws
pub mod Unlink
pub mod Tail
use l4ertl.Base.{
  ◌≡◌, ◌≢◌, Bool, true, false, ◌||◌, List, [], ◌∷◌, ◌==◌, if◌then◌else◌, Ptr, null, update,
}

-- A field of every thread, as a map from the thread's address.
abbrev pub Field : Type 0
Field = Ptr → Ptr

abbrev pub has : Ptr → List Ptr → Bool
has a [] = false
has a (x ∷ xs) = a == x || has a xs

abbrev pub nonempty : List Ptr → Bool
nonempty [] = false
nonempty (x ∷ xs) = true

abbrev pub erase : Ptr → List Ptr → List Ptr
erase a [] = []
erase a (x ∷ xs) = if a == x then xs else x ∷ erase a xs

-- From `head` the `next` fields lead through the distinct threads of the list to NULL, and each
-- `prev` field leads back, from the first one to `before`.
abbrev pub IsChain : Field → Field → Ptr → Ptr → List Ptr → Type 0
IsChain next prev before head [] = head ≡ null
IsChain next prev before head (x ∷ xs) =
    (head ≡ x)
    × (x ≢ null)
    × (prev x ≡ before)
    × (has x xs ≡ false)
    × IsChain next prev x (next x) xs

-- The writes by which a thread is taken out of its chain.
abbrev pub bypass_next : Field → Field → Ptr → Field
bypass_next next prev t = if prev t == null then next else update next (prev t) (next t)

abbrev pub bypass_prev : Field → Field → Ptr → Field
bypass_prev next prev t = if next t == null then prev else update prev (next t) (prev t)
