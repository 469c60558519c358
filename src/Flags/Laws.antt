-- ===== src/Flags/Laws.antt =====
-- The fields of the flag word are independent.
use l4ertl.Base.{
  refl, ◌∙◌, ◌*◌, ◌%◌, ap, ◌^◌, ◌||◌, ◌/◌, false, Bool, inr, bit_and, sym, inl, Bool-cases, ◌==◌,
  if◌then◌else◌, true, ◌≡◌, word, ◌&&◌, not, ◌<◌, arith, ℕ,
}
use l4ertl.Bits.{
  bit_and-mask, bit_and-le, bit_or-lt, eq_of_test_bit, bit_or-zero, test_bit, test_bit-bit_and,
  test_bit-bit_or, test_bit-complement, test_bit-zero,
}
use l4ertl.Bitmap.{complement}
use l4ertl.Flags.{
  ℕ, set_field, set_flag, set_thread_state, get_thread_state, set_thread_detach_state,
  get_thread_detach_state, set_thread_cancel_state, get_thread_cancel_state, set_thread_cancel_type,
  get_thread_cancel_type, set_thread_policy, get_thread_policy, set_thread_activate_on_signal,
  get_thread_activate_on_signal,
}
use l4ertl.Flags.Field.{
  IsWithin, IsDisjoint, passes, passes-test, Within-bit_and, field-same, field-other,
}

-- What the GET macros read.
pub record View : Type 0 where
  pub state : ℕ
  pub detach : ℕ
  pub cancel_state : ℕ
  pub cancel_type : ℕ
  pub policy : ℕ
  pub activate : ℕ

abbrev pub view : ℕ → View
view flags = record {
  state = get_thread_state flags;
  detach = get_thread_detach_state flags;
  cancel_state = get_thread_cancel_state flags;
  cancel_type = get_thread_cancel_type flags;
  policy = get_thread_policy flags;
  activate = get_thread_activate_on_signal flags;
}

IsWithin-zero : (m : ℕ) → IsWithin 0 m
IsWithin-zero m i h = rw (test_bit-zero i)

IsWithin-self : (m : ℕ) → IsWithin m m
IsWithin-self m i h = ground arith

-- `set_flag` is `set_field` with all or none of the mask.
set_flag-eq :
    (flags mask state : ℕ)
    → flags < word
    → mask < word
    → set_flag flags mask state ≡ set_field flags mask (if state == 0 then 0 else mask)
unfolding set_flag set_field
set_flag-eq flags mask state hf hm = elim (Bool-cases (state == 0)) [
  | inl off ↦ rw off (sym (bit_or-zero (bit_and flags (complement mask))))
  | inr on ↦ rw on (
      eq_of_test_bit 32 _ _ (bit_or-lt 32 flags mask hf hm)
        (bit_or-lt 32 _ mask (omega (arith, bit_and-le flags (complement mask))) hm)
        λ i h. ground (
          arith,
          test_bit-bit_or i flags mask,
          test_bit-bit_or i (bit_and flags (complement mask)) mask,
          test_bit-bit_and i flags (complement mask),
          test_bit-complement 32 i mask hm h,
        ))
]

-- The masks are the same or share no bit, by a check of the 32 positions.
clean : ℕ → ℕ → Bool
clean m other = m == other || passes (λ i. not (test_bit m i && test_bit other i)) 32

clean-IsDisjoint : (m other : ℕ) → clean m other ≡ true → (m == other) ≡ false → IsDisjoint m other
unfolding clean
clean-IsDisjoint m other table ne i h =
    ground (arith, passes-test (λ i. not (test_bit m i && test_bit other i)) 32 (ground arith) i h)

-- The six masks against one of them.
abbrev all_clean : ℕ → Bool
all_clean m =
    clean m 0x7 && clean m 0x8 && clean m 0x10 && clean m 0x20 && clean m 0x3c0 && clean m 0x400

-- The view of a flag word after the field of mask `m` is written.
abbrev written : ℕ → ℕ → View → View
written m v old = record {
  state = if m == 0x7 then v else old.state;
  detach = if m == 0x8 then v else old.detach;
  cancel_state = if m == 0x10 then v else old.cancel_state;
  cancel_type = if m == 0x20 then v else old.cancel_type;
  policy = if m == 0x3c0 then v / 2 ^ 6 else old.policy;
  activate = if m == 0x400 then v else old.activate;
}

module _ (flags m v : ℕ) (hm : m < word) (hv : v < word) (within : IsWithin v m) where
  read-set_field :
      (other : ℕ)
      → other < word
      → clean m other ≡ true
      → bit_and (set_field flags m v) other ≡ (if m == other then v else bit_and flags other)
  read-set_field other ho table = elim (Bool-cases (m == other)) [
    | inl e ↦
        let same : m ≡ other = ground arith in rw (e, ← same) (field-same flags m v hm hv within)
    | inr e ↦ rw e (field-other flags m v hm hv other ho within (clean-IsDisjoint m other table e))
  ]

  -- What the GET macros read after a field is written.
  view-set_field : all_clean m ≡ true → view (set_field flags m v) ≡ written m v (view flags)
  unfolding get_thread_state get_thread_detach_state get_thread_cancel_state get_thread_cancel_type
      get_thread_policy get_thread_activate_on_signal
  view-set_field table = ground (
    arith,
    read-set_field 0x7 (omega arith) (ground arith),
    read-set_field 0x8 (omega arith) (ground arith),
    read-set_field 0x10 (omega arith) (ground arith),
    read-set_field 0x20 (omega arith) (ground arith),
    read-set_field 0x3c0 (omega arith) (ground arith),
    read-set_field 0x400 (omega arith) (ground arith),
  )

-- A flag of one bit.
abbrev pub flag : ℕ → ℕ → ℕ
flag m state = if state == 0 then 0 else m

flag-lt : (m state : ℕ) → m < word → flag m state < word
flag-lt m state h = ground arith

flag-IsWithin : (m state : ℕ) → IsWithin (flag m state) m
flag-IsWithin m state i h = elim (Bool-cases (state == 0)) [
  | inl off ↦ rw off (IsWithin-zero m i h)
  | inr on ↦ rw on (IsWithin-self m i h)
]

view-set_flag :
    (flags m state : ℕ)
    → flags < word
    → m < word
    → all_clean m ≡ true
    → view (set_flag flags m state) ≡ written m (flag m state) (view flags)
view-set_flag flags m state hf hm table =
    ap view (set_flag-eq flags m state hf hm)
    ∙ view-set_field flags m (flag m state) hm (flag-lt m state hm) (flag-IsWithin m state) table

-- Four bits, shifted left by six, lie within the mask of the policy.
policy_fits : ℕ → ℕ → Bool
policy_fits x i = not (test_bit (x * 2 ^ 6) i && not (test_bit 0x3c0 i))

policy_table : passes (λ x. passes (policy_fits x) 32) 16 ≡ true
unfolding passes policy_fits test_bit
policy_table = refl

policy-IsWithin : (policy : ℕ) → IsWithin (bit_and policy 0xf * 2 ^ 6) 0x3c0
unfolding policy_fits
policy-IsWithin policy i h =
    let x = bit_and policy 0xf in
    let row =
      passes-test (λ x. passes (policy_fits x) 32) 16 policy_table x
        (omega (arith, bit_and-mask 4 policy)) in
    ground (arith, passes-test (policy_fits x) 32 row i h)

-- Each SET macro changes the one field that it names, to the low three bits of a state, the low four
-- bits of a policy, or the flag's own bit if the value is not 0, and the GET macros read all other
-- fields as before.
pub set_thread_fields :
    (flags value : ℕ)
    → flags < word
    → (view (set_thread_state flags value) ≡ record (view flags) { state = value % 8 })
      × (view (set_thread_detach_state flags value)
          ≡ record (view flags) { detach = flag 0x8 value })
      × (view (set_thread_cancel_state flags value)
          ≡ record (view flags) { cancel_state = flag 0x10 value })
      × (view (set_thread_cancel_type flags value)
          ≡ record (view flags) { cancel_type = flag 0x20 value })
      × (view (set_thread_policy flags value) ≡ record (view flags) { policy = value % 16 })
      × (view (set_thread_activate_on_signal flags value)
          ≡ record (view flags) { activate = flag 0x400 value })
unfolding set_thread_state set_thread_detach_state set_thread_cancel_state set_thread_cancel_type
    set_thread_policy set_thread_activate_on_signal clean passes test_bit
set_thread_fields flags value hf = (
  view-set_field flags 0x7 (bit_and value 0x7) (omega arith) (omega (arith, bit_and-mask 3 value))
        (Within-bit_and value 0x7) refl
      ∙ ap (λ (s : ℕ). record (view flags) { state = s }) (bit_and-mask 3 value),
  view-set_flag flags 0x8 value hf (omega arith) refl,
  view-set_flag flags 0x10 value hf (omega arith) refl,
  view-set_flag flags 0x20 value hf (omega arith) refl,
  view-set_field flags 0x3c0 (bit_and value 0xf * 2 ^ 6) (omega arith)
        (omega (arith, bit_and-mask 4 value)) (policy-IsWithin value) refl
      ∙ ap (λ (p : ℕ). record (view flags) { policy = p }) (omega (arith, bit_and-mask 4 value)),
  view-set_flag flags 0x400 value hf (omega arith) refl,
)

pub set_thread_cancel_state-lt :
    (flags value : ℕ) → flags < word → set_thread_cancel_state flags value < word
unfolding set_thread_cancel_state set_flag
set_thread_cancel_state-lt flags value h = elim (Bool-cases (value == 0)) [
  | inl e ↦ rw e (omega (arith, h, bit_and-le flags (complement 0x10)))
  | inr e ↦ rw e (bit_or-lt 32 flags 0x10 h (omega arith))
]
