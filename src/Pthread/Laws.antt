-- ===== src/Pthread/Laws.antt =====
-- The cancellation state of a thread.
use l4ertl.Flags.Laws.{View, set_thread_cancel_state-lt, set_thread_fields, flag}
use l4ertl.Flags.{
  get_thread_state, set_thread_cancel_state, get_thread_cancel_state, get_thread_policy,
}
use l4ertl.Sched.{state_of}
use l4ertl.Kernel.{success, done, current, Kernel}
use l4ertl.Base.{
  inr, ◌∙◌, ap, inl, ==_refl, Bool-cases, arith, refl, ◌≡◌, word, ◌<◌, ◌==◌, if◌then◌else◌, ℕ,
}
use l4ertl.Pthread.{set_flags, get_thread_policy, Kernel, pthread_setcancelstate_sys}
use Prim.Native.Nat.{ℕ}

-- The `state` that a call of pthread_setcancelstate_sys leaves, as it reports it.
abbrev pub as_reported : ℕ → ℕ
as_reported state = if state == 1 then 1 else 0

-- What the writing of the cancellation state does to the flags.
cancel_written :
    (flags value : ℕ)
    → flags < word
    → (get_thread_cancel_state (set_thread_cancel_state flags value) ≡ flag 0x10 value)
      × (get_thread_state (set_thread_cancel_state flags value) ≡ get_thread_state flags)
      × (get_thread_policy (set_thread_cancel_state flags value) ≡ get_thread_policy flags)
cancel_written flags value h =
    let e = (set_thread_fields flags value h).2 in
    (
      ap (λ (v : View). v.cancel_state) e,
      ap (λ (v : View). v.state) e,
      ap (λ (v : View). v.policy) e,
    )

-- The flags after a call.
abbrev cancelled : ℕ → ℕ → ℕ
cancelled state flags =
    if state == 1 then set_thread_cancel_state flags 1 else set_thread_cancel_state flags 0

cancelled-fields :
    (state flags : ℕ)
    → flags < word
    → (cancelled state flags < word)
      × ((if get_thread_cancel_state (cancelled state flags) == 0 then 0 else 1)
          ≡ as_reported state)
      × (get_thread_state (cancelled state flags) ≡ get_thread_state flags)
      × (get_thread_policy (cancelled state flags) ≡ get_thread_policy flags)
cancelled-fields state flags h = elim (Bool-cases (state == 1)) [
  | inl e ↦
      let (reads, state_same, policy_same) = cancel_written flags 1 h in
      rw (e, reads) (set_thread_cancel_state-lt flags 1 h, refl, state_same, policy_same)
  | inr e ↦
      let (reads, state_same, policy_same) = cancel_written flags 0 h in
      rw (e, reads) (set_thread_cancel_state-lt flags 0 h, refl, state_same, policy_same)
]

-- Two calls of `pthread_setcancelstate_sys`, when the flags of the current thread fit in 32 bits, both
-- return 0; the second one reports the state that the first one was given, 1 for
-- PTHREAD_CANCEL_DISABLE and 0 for all else, and the thread is as ready, and its policy is the same,
-- as before both.
pub pthread_setcancelstate_sys-twice :
    (state state' : ℕ) (k : Kernel)
    → (current k).thread_flags < word
    → (old : ℕ) × (k1 : Kernel) × (k2 : Kernel) × (pthread_setcancelstate_sys state k
        ≡ done (success, old) k1)
      × (pthread_setcancelstate_sys state' k1 ≡ done (success, as_reported state) k2)
      × (state_of k2 k2.current_thread ≡ state_of k k.current_thread)
      × (get_thread_policy (current k2).thread_flags ≡ get_thread_policy (current k).thread_flags)
unfolding pthread_setcancelstate_sys
pthread_setcancelstate_sys-twice state state' k small =
    let t = k.current_thread in
    let flags = (current k).thread_flags in
    let k1 = set_flags t (cancelled state flags) k in
    let k2 = set_flags t (cancelled state' (current k1).thread_flags) k1 in
    let (small1, reads, state1, policy1) = cancelled-fields state flags small in
    let (small2, reads2, state2, policy2) =
      cancelled-fields state' (cancelled state flags) small1 in
    let now : (current k1).thread_flags ≡ cancelled state flags = ground arith in
    let later : (current k2).thread_flags ≡ cancelled state' (cancelled state flags) =
      rw (==_refl t) refl in
    (
      _,
      k1,
      k2,
      refl,
      ap (λ (n : ℕ). done (success, n) k2)
          (ap (λ f. if get_thread_cancel_state f == 0 then 0 else 1) now ∙ reads),
      ap (λ f. get_thread_state f) later ∙ state2 ∙ state1,
      ap (λ f. get_thread_policy f) later ∙ policy2 ∙ policy1,
    )
