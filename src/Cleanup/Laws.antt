-- ===== src/Cleanup/Laws.antt =====
-- The cleanup handlers are a stack.
use l4ertl.Cleanup.{
  set_current, pthread_cleanup_pop_sys, pthread_cleanup_push_sys, max_cleanup_handlers,
}
use l4ertl.Kernel.{set_current, CleanupRoutine, current, Kernel}
use l4ertl.Base.{
  Option, ap, ◌-◌, ◌%◌, word, ◌+◌, lt→ltb, ==_refl, true, ltb-ge, int_ltb, ◌∙◌, some, refl, none,
  if◌then◌else◌, arith, false, ◌==◌, zero, ◌≡◌, ◌∷◌, ◌^◌, update, ◌≤◌, ◌<◌, [], List, ℕ, Ptr,
}
use Prim.Native.Nat.{suc, ℕ}

-- The handlers of the current thread, the last one pushed first.
abbrev pub handlers_of : (ℕ → CleanupRoutine) → ℕ → List CleanupRoutine
handlers_of table zero = []
handlers_of table (suc n) = table n ∷ handlers_of table n

abbrev pub handlers : Kernel → List CleanupRoutine
handlers k = handlers_of (current k).cleanup_routine_table (current k).top_cr_table

handlers_of-update :
    (table : ℕ → CleanupRoutine) (n i : ℕ) (r : CleanupRoutine)
    → n ≤ i
    → handlers_of (update table i r) n ≡ handlers_of table n
handlers_of-update table zero i r h = refl
handlers_of-update table (suc n) i r h =
    let off : (i == n) ≡ false = ground (arith, h) in
    rw (off, handlers_of-update table n i r (omega (arith, h))) refl

push-eq :
    (routine arg : Ptr) (k : Kernel)
    → (current k).top_cr_table < max_cleanup_handlers
    → pthread_cleanup_push_sys routine arg k
      ≡ set_current
          (record (current k) {
            cleanup_routine_table =
                update
                  (current k).cleanup_routine_table
                  (current k).top_cr_table
                  (record { routine = routine; arg = arg });
            top_cr_table = suc (current k).top_cr_table;
          })
          k
unfolding pthread_cleanup_push_sys
push-eq routine arg k small =
    let room : int_ltb (current k).top_cr_table max_cleanup_handlers ≡ true =
      lt→ltb _ _ (omega (arith, small)) in
    let next : ((current k).top_cr_table + 1) % word ≡ suc (current k).top_cr_table =
      omega (arith, small) in
    rw (room, next) refl

pop-eq :
    (execute n : ℕ) (k : Kernel)
    → (current k).top_cr_table ≡ suc n
    → n < max_cleanup_handlers
    → pthread_cleanup_pop_sys execute k ≡ (
      (if execute == 0 then none else some ((current k).cleanup_routine_table n)),
      set_current (record (current k) { top_cr_table = n }) k,
    )
unfolding pthread_cleanup_pop_sys
pop-eq execute n k top small =
    let some_handler : int_ltb 0 (current k).top_cr_table ≡ true =
      lt→ltb _ _ (omega (arith, small, top)) in
    let last : ((current k).top_cr_table + word - 1) % word ≡ n = omega (arith, small, top) in
    rw (some_handler, last) refl

push_full :
    (routine arg : Ptr) (k : Kernel)
    → (current k).top_cr_table < 2 ^ 31
    → max_cleanup_handlers ≤ (current k).top_cr_table
    → pthread_cleanup_push_sys routine arg k ≡ k
unfolding pthread_cleanup_push_sys
push_full routine arg k bound full =
    let no_room : int_ltb (current k).top_cr_table max_cleanup_handlers ≡ false =
      ltb-ge _ _ (omega (arith, full, bound)) in
    rw no_room refl

-- The handlers of a kernel whose current thread has the table and the top.
handlers-eq :
    (k : Kernel) (table : ℕ → CleanupRoutine) (n : ℕ)
    → (current k).cleanup_routine_table ≡ table
    → (current k).top_cr_table ≡ n
    → handlers k ≡ handlers_of table n
handlers-eq k table n e f = rw (e, f) refl

module _ (routine arg : Ptr) (execute : ℕ) (k : Kernel)
    (small : (current k).top_cr_table < max_cleanup_handlers) where
  abbrev handler : CleanupRoutine
  handler = record { routine = routine; arg = arg }

  abbrev n : ℕ
  n = (current k).top_cr_table

  abbrev pushed_table : ℕ → CleanupRoutine
  pushed_table = update (current k).cleanup_routine_table n handler

  abbrev pushed : Kernel
  pushed =
      set_current
        (record (current k) { cleanup_routine_table = pushed_table; top_cr_table = suc n }) k

  pushed-handlers : handlers pushed ≡ handler ∷ handlers k
  pushed-handlers =
      handlers-eq pushed pushed_table (suc n) (ground arith) (ground arith)
      ∙ rw
          (
            ==_refl n,
            handlers_of-update (current k).cleanup_routine_table n n handler (omega arith),
          )
          refl

  popped :
      (handlers (pthread_cleanup_pop_sys execute pushed).1 ≡ handlers k)
      × ((pthread_cleanup_pop_sys execute pushed).0 ≡ (if execute == 0 then none else some handler))
  popped =
      let e = pop-eq execute n pushed (ground arith) small in
      let read : (current pushed).cleanup_routine_table n ≡ handler = ground arith in
      (
        ap (λ (p : Option CleanupRoutine × Kernel). handlers p.1) e
            ∙ handlers-eq (set_current (record (current pushed) { top_cr_table = n }) pushed)
                pushed_table n (ground arith) (ground arith)
            ∙ handlers_of-update (current k).cleanup_routine_table n n handler (omega arith),
        ap (λ (p : Option CleanupRoutine × Kernel). p.0) e
            ∙ ap (λ h. if execute == 0 then none else some h) read,
      )

-- With fewer than eight handlers, `pthread_cleanup_push_sys` puts the handler in front of those of the
-- current thread, and `pthread_cleanup_pop_sys` after it takes that one out again, which is the one to
-- call if `execute` is not 0. With eight or more, below 2 ^ 31, the push changes nothing.
pub pthread_cleanup_pop_sys-pthread_cleanup_push_sys :
    (routine arg : Ptr) (execute : ℕ) (k : Kernel)
    → (current k).top_cr_table < 2 ^ 31
    → ((current k).top_cr_table < max_cleanup_handlers
        → (handlers (pthread_cleanup_push_sys routine arg k)
            ≡ record { routine = routine; arg = arg } ∷ handlers k)
          × (handlers (pthread_cleanup_pop_sys execute (pthread_cleanup_push_sys routine arg k)).1
              ≡ handlers k)
          × ((pthread_cleanup_pop_sys execute (pthread_cleanup_push_sys routine arg k)).0
              ≡ (if execute == 0 then none else some (record { routine = routine; arg = arg }))))
      × (max_cleanup_handlers ≤ (current k).top_cr_table
          → pthread_cleanup_push_sys routine arg k ≡ k)
pthread_cleanup_pop_sys-pthread_cleanup_push_sys routine arg execute k bound = (
  (λ small.
      let e = push-eq routine arg k small in
      (
        ap handlers e ∙ pushed-handlers routine arg execute k small,
        ap (λ k1. handlers (pthread_cleanup_pop_sys execute k1).1) e
            ∙ (popped routine arg execute k small).0,
        ap (λ k1. (pthread_cleanup_pop_sys execute k1).0) e
            ∙ (popped routine arg execute k small).1,
      )),
  push_full routine arg k bound,
)
