-- ===== src/Core/Dash/SlotBitmap/Laws.antt =====
-- The bitmap as a set of slots in use, each with its probing flag, and a counter of them.
use mathlib.Core.Path.{subst, sym}
use shrikedb.Prelude.{
  ℕ, suc, ◌+◌, ◌-◌, ◌*◌, ◌/◌, ◌%◌, ◌<◌, ◌≡◌, ◌≢◌, refl, ◌∙◌, Bool, true, false, not, none, some,
  arith, ◌==◌, if◌then◌else◌, Bool-cases, inl, inr,
}
use shrikedb.Core.Dash.Bits.{
  test_bit, set_bit, clear_bit, shift_right, trailing_zeros, flip_low, test_bit-set_bit,
  test_bit-clear_bit, test_bit-shift_right, test_bit-above, set_bit-low, clear_bit-low,
  test_bit-low_bits, test_bit-flip_low, test_bit-zero, trailing_zeros-set, flip_low-nonzero,
}
use shrikedb.Core.Dash.SlotBitmap.{
  SlotBitmap, num_slots, busy, probe_mask, size, find_empty, set_slot, clear_slot,
}

abbrev pub in_use : SlotBitmap → ℕ → Bool
in_use w i = test_bit (18 + i) w

abbrev pub is_probing : SlotBitmap → ℕ → Bool
is_probing w i = test_bit (4 + i) w

pub test_bit-busy : (i w : ℕ) → test_bit i (busy w) ≡ in_use w i
unfolding busy
test_bit-busy i w = test_bit-shift_right i 18 (18 + i) w refl

-- The mask of `probe_mask` has the slots with the probing flag asked for.
pub test_bit-probe_mask :
    (i w : ℕ) (probe : Bool)
    → i < num_slots
    → test_bit i (probe_mask probe w) ≡ (if probe then is_probing w i else not (is_probing w i))
unfolding probe_mask
test_bit-probe_mask i w true h =
    ground
      (arith, test_bit-low_bits i 12 (shift_right 4 w), test_bit-shift_right i 4 (4 + i) w refl)
test_bit-probe_mask i w false h =
    ground
      (arith, test_bit-flip_low i 12 (shift_right 4 w), test_bit-shift_right i 4 (4 + i) w refl)

with_size-div : (sz w : ℕ) → sz < 16 → (w / 16 * 16 + sz) / 16 ≡ w / 16
with_size-div sz w h = omega arith

with_size-mod : (sz w : ℕ) → sz < 16 → (w / 16 * 16 + sz) % 16 ≡ sz
with_size-mod sz w h = omega arith

module _ (i : ℕ) (w : SlotBitmap) (inside : i < num_slots) where
  -- The word of `set_slot` before the counter is written.
  marked : Bool → SlotBitmap
  marked probing =
      if probing
      then set_bit (4 + i) (set_bit (18 + i) w)
      else clear_bit (4 + i) (set_bit (18 + i) w)

  marked-low : (probing : Bool) → marked probing % 16 ≡ w % 16
  unfolding marked
  marked-low true =
      set_bit-low (4 + i) (set_bit (18 + i) w) (omega arith) ∙ set_bit-low (18 + i) w (omega arith)
  marked-low false =
      clear_bit-low (4 + i) (set_bit (18 + i) w) (omega arith)
      ∙ set_bit-low (18 + i) w (omega arith)

  in_use-marked :
      (probing : Bool) (j : ℕ) → in_use (marked probing) j ≡ (if i == j then true else in_use w j)
  unfolding marked
  in_use-marked true j = ground (
    arith,
    test_bit-set_bit (4 + i) (18 + j) (set_bit (18 + i) w),
    test_bit-set_bit (18 + i) (18 + j) w,
  )
  in_use-marked false j = ground (
    arith,
    test_bit-clear_bit (4 + i) (18 + j) (set_bit (18 + i) w),
    test_bit-set_bit (18 + i) (18 + j) w,
  )

  is_probing-marked :
      (probing : Bool) (j : ℕ)
      → j < num_slots
      → is_probing (marked probing) j ≡ (if i == j then probing else is_probing w j)
  unfolding marked
  is_probing-marked true j h = ground (
    arith,
    test_bit-set_bit (4 + i) (4 + j) (set_bit (18 + i) w),
    test_bit-set_bit (18 + i) (4 + j) w,
  )
  is_probing-marked false j h = ground (
    arith,
    test_bit-clear_bit (4 + i) (4 + j) (set_bit (18 + i) w),
    test_bit-set_bit (18 + i) (4 + j) w,
  )

  set_slot_word :
      (probing : Bool) → set_slot i probing w ≡ marked probing / 16 * 16 + (marked probing % 16 + 1)
  unfolding set_slot marked
  set_slot_word probing = refl

  set_slot-div : (probing : Bool) → size w < 15 → set_slot i probing w / 16 ≡ marked probing / 16
  unfolding size
  set_slot-div probing room = omega (arith, set_slot_word probing, marked-low probing)

  pub size-set_slot : (probing : Bool) → size w < 15 → size (set_slot i probing w) ≡ suc (size w)
  unfolding size
  size-set_slot probing room = omega (arith, set_slot_word probing, marked-low probing)

  pub in_use-set_slot :
      (probing : Bool) (j : ℕ)
      → size w < 15
      → in_use (set_slot i probing w) j ≡ (if i == j then true else in_use w j)
  in_use-set_slot probing j room =
      test_bit-above (18 + j) _ (marked probing) (set_slot-div probing room) (omega arith)
      ∙ in_use-marked probing j

  pub is_probing-set_slot :
      (probing : Bool) (j : ℕ)
      → size w < 15
      → j < num_slots
      → is_probing (set_slot i probing w) j ≡ (if i == j then probing else is_probing w j)
  is_probing-set_slot probing j room h =
      test_bit-above (4 + j) _ (marked probing) (set_slot-div probing room) (omega arith)
      ∙ is_probing-marked probing j h

  -- The word of `clear_slot` before the counter is written.
  cleared : SlotBitmap
  cleared = clear_bit (4 + i) (clear_bit (18 + i) w)

  clear_slot_word : clear_slot i w ≡ cleared / 16 * 16 + (cleared % 16 - 1)
  unfolding clear_slot cleared
  clear_slot_word = refl

  cleared-low : cleared % 16 ≡ w % 16
  unfolding cleared
  cleared-low =
      clear_bit-low (4 + i) (clear_bit (18 + i) w) (omega arith)
      ∙ clear_bit-low (18 + i) w (omega arith)

  clear_slot-div : clear_slot i w / 16 ≡ cleared / 16
  clear_slot-div = omega (arith, clear_slot_word)

  pub size-clear_slot : size (clear_slot i w) ≡ size w - 1
  unfolding size
  size-clear_slot = omega (arith, clear_slot_word, cleared-low)

  pub in_use-clear_slot :
      (j : ℕ) → in_use (clear_slot i w) j ≡ (if i == j then false else in_use w j)
  unfolding cleared
  in_use-clear_slot j =
      test_bit-above (18 + j) _ cleared clear_slot-div (omega arith)
      ∙ ground (
        arith,
        test_bit-clear_bit (4 + i) (18 + j) (clear_bit (18 + i) w),
        test_bit-clear_bit (18 + i) (18 + j) w,
      )

  pub is_probing-clear_slot :
      (j : ℕ)
      → j < num_slots
      → is_probing (clear_slot i w) j ≡ (if i == j then false else is_probing w j)
  unfolding cleared
  is_probing-clear_slot j h =
      test_bit-above (4 + j) _ cleared clear_slot-div (omega arith)
      ∙ ground (
        arith,
        test_bit-clear_bit (4 + i) (4 + j) (clear_bit (18 + i) w),
        test_bit-clear_bit (18 + i) (4 + j) w,
      )

pub none-some : {A : Type 0} (i : A) → none ≢ some i
none-some i e = cc

pub some-injective : {A : Type 0} {i j : A} → some i ≡ some j → i ≡ j
some-injective e = cc

find_empty_full : (w : SlotBitmap) → (flip_low num_slots (busy w) == 0) ≡ true → find_empty w ≡ none
unfolding find_empty
find_empty_full w e = rw (find_empty, e) refl

find_empty_lowest :
    (w : SlotBitmap)
    → (flip_low num_slots (busy w) == 0) ≡ false
    → find_empty w ≡ some (trailing_zeros 32 (flip_low num_slots (busy w)))
unfolding find_empty
find_empty_lowest w e = rw (find_empty, e) refl

-- `find_empty` answers a slot that is not in use, if there is one.
pub find_empty-free :
    (w : SlotBitmap) (i : ℕ) → find_empty w ≡ some i → (i < num_slots) × (in_use w i ≡ false)
unfolding find_empty
find_empty-free w i h =
    let free = flip_low num_slots (busy w) in
    let lowest = trailing_zeros 32 free in
    elim (Bool-cases (free == 0)) [
      | inl empty ↦ absurd (none-some i (sym (find_empty_full w empty) ∙ h))
      | inr nonempty ↦
          let (k, below, set) = flip_low-nonzero num_slots (busy w) (λ e. ground arith) in
          let (lowest_set, least) = trailing_zeros-set 32 k free (omega arith) set in
          let same : lowest ≡ i = some-injective (sym (find_empty_lowest w nonempty) ∙ h) in
          let found : (lowest < num_slots) × (in_use w lowest ≡ false) = (
            omega arith,
            ground (arith, test_bit-flip_low lowest num_slots (busy w), test_bit-busy lowest w),
          ) in
          subst (λ x. (x < num_slots) × (in_use w x ≡ false)) same found
    ]

pub find_empty-some :
    (w : SlotBitmap) (i : ℕ)
    → i < num_slots
    → in_use w i ≡ false
    → (j : ℕ) × (find_empty w ≡ some j)
unfolding find_empty
find_empty-some w i h free =
    let set : test_bit i (flip_low num_slots (busy w)) ≡ true =
      ground (arith, test_bit-flip_low i num_slots (busy w), test_bit-busy i w) in
    elim (Bool-cases (flip_low num_slots (busy w) == 0)) [
      | inl empty ↦ absurd (ground (arith, test_bit-zero i))
      | inr nonempty ↦
          (trailing_zeros 32 (flip_low num_slots (busy w)), find_empty_lowest w nonempty)
    ]
