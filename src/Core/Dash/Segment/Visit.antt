-- ===== src/Core/Dash/Segment/Visit.antt =====
-- The loop over the set bits of a mask visits each of them.
use mathlib.Core.Path.{subst}
use shrikedb.Prelude.{
  ℕ, zero, suc, ◌+◌, ◌≤◌, ◌<◌, ◌≡◌, refl, ap, sym, ◌∙◌, Bool, true, false, none, some, arith, ◌==◌,
  if◌then◌else◌, Bool-cases, inl, inr,
}
use shrikedb.Core.Dash.Bits.{
  test_bit, clear_bit, trailing_zeros, test_bit-clear_bit, test_bit-zero, trailing_zeros-set,
  nonzero-bit,
}
use shrikedb.Core.Dash.SlotBitmap.Counted.{==_equal}
use shrikedb.Core.Dash.SlotBitmap.Laws.{none-some, some-injective}
use shrikedb.Core.Dash.Bucket.{mask_slots}
use shrikedb.Core.Dash.Segment.{first_slot}

-- The set bits are from `lo` on, below `lo + n`.
abbrev pub IsWithin : ℕ → ℕ → ℕ → Type 0
IsWithin lo n mask = (i : ℕ) → test_bit i mask ≡ true → (lo ≤ i) × (i < lo + n)

module _ (lo n mask : ℕ) (within : IsWithin lo (suc n) mask) (bound : lo + suc n ≤ 32) where
  pub lowest_lem :
      (i : ℕ)
      → test_bit i mask ≡ true
      → (test_bit (trailing_zeros 32 mask) mask ≡ true) × (trailing_zeros 32 mask ≤ i)
  lowest_lem i set = trailing_zeros-set 32 i mask (omega (arith, (within i set).1)) set

  pub rest-IsWithin : IsWithin (suc lo) n (clear_bit (trailing_zeros 32 mask) mask)
  rest-IsWithin i set =
      let slot = trailing_zeros 32 mask in
      let here = test_bit-clear_bit slot i mask in
      elim (Bool-cases (slot == i)) [
        | inl same ↦ absurd (ground arith)
        | inr other ↦
            let still : test_bit i mask ≡ true = ground arith in
            let (lowest_set, least) = lowest_lem i still in
            let (from_lo, below) = within i still in
            let (slot_from, slot_below) = within slot lowest_set in (ground arith, omega arith)
      ]

pub empty-bit : (j mask : ℕ) → (mask == 0) ≡ true → test_bit j mask ≡ false
empty-bit j mask empty = ap (test_bit j) (==_equal mask 0 empty) ∙ test_bit-zero j

module _ (p : ℕ → Bool) where
  -- One round of the loop.
  visit_round :
      (n mask : ℕ)
      → first_slot p (mask_slots (suc n) mask) ≡ (
          if mask == 0
          then none
          else if p (trailing_zeros 32 mask)
          then some (trailing_zeros 32 mask)
          else first_slot p (mask_slots n (clear_bit (trailing_zeros 32 mask) mask)))
  unfolding first_slot mask_slots
  visit_round n mask = elim (Bool-cases (mask == 0)) [
    | inl empty ↦ rw empty refl
    | inr nonempty ↦ rw nonempty refl
  ]

  still_set :
      (slot j mask : ℕ)
      → p slot ≡ false
      → p j ≡ true
      → test_bit j mask ≡ true
      → test_bit j (clear_bit slot mask) ≡ true
  still_set slot j mask fails holds set =
      let here = test_bit-clear_bit slot j mask in
      elim (Bool-cases (slot == j)) [
        | inl same ↦ let equal = ap p (==_equal slot j same) in cc
        | inr other ↦ ground arith
      ]

  pub first_slot_complete :
      (n lo mask j : ℕ)
      → IsWithin lo n mask
      → lo + n ≤ 32
      → test_bit j mask ≡ true
      → p j ≡ true
      → (k : ℕ) × (first_slot p (mask_slots n mask) ≡ some k)
  first_slot_complete zero lo mask j within bound set holds =
      absurd (omega (arith, (within j set).0, (within j set).1))
  first_slot_complete (suc n) lo mask j within bound set holds =
      let slot = trailing_zeros 32 mask in
      elim (Bool-cases (mask == 0)) [
        | inl empty ↦ let clear = empty-bit j mask empty in cc
        | inr nonempty ↦ elim (Bool-cases (p slot)) [
          | inl here ↦ (slot, visit_round n mask ∙ rw (nonempty, here) refl)
          | inr not_here ↦
              let (k, found) =
                first_slot_complete n (suc lo) (clear_bit slot mask) j
                  (rest-IsWithin lo n mask within bound) (omega arith)
                  (still_set slot j mask not_here holds set) holds in
              (k, visit_round n mask ∙ rw (nonempty, not_here) found)
        ]
      ]

  pub first_slot_sound :
      (n lo mask k : ℕ)
      → IsWithin lo n mask
      → lo + n ≤ 32
      → first_slot p (mask_slots n mask) ≡ some k
      → (p k ≡ true) × (test_bit k mask ≡ true)
  unfolding first_slot mask_slots
  first_slot_sound zero lo mask k within bound h = absurd (none-some k h)
  first_slot_sound (suc n) lo mask k within bound h =
      let slot = trailing_zeros 32 mask in
      let next = sym (visit_round n mask) ∙ h in
      elim (Bool-cases (mask == 0)) [
        | inl empty ↦ absurd (none-some k (rw empty at next))
        | inr nonempty ↦ elim (Bool-cases (p slot)) [
          | inl here ↦
              let same : slot ≡ k = some-injective (rw (nonempty, here) at next) in
              let (i, set) = nonzero-bit mask (λ e. ground arith) in
              let lowest_set = (lowest_lem lo n mask within bound i set).0 in
              subst (λ x. (p x ≡ true) × (test_bit x mask ≡ true)) same (here, lowest_set)
          | inr not_here ↦
              let (holds, set) =
                first_slot_sound n (suc lo) (clear_bit slot mask) k
                  (rest-IsWithin lo n mask within bound) (omega arith)
                  (rw (nonempty, not_here) at next) in
              (holds, ground (arith, test_bit-clear_bit slot k mask))
        ]
      ]
