-- ===== src/Core/Dash/SlotBitmap.antt =====
-- `SlotBitmap` of bucket.rs, a u32: the number of items in the bits 0 to 3, a bit for each slot
-- with a probing item from bit 4, and one for each slot in use from bit 18.
pub mod Laws
pub mod Counted
use shrikedb.Prelude.{
  ℕ, zero, suc, ◌+◌, ◌-◌, ◌*◌, ◌/◌, ◌%◌, Bool, true, false, Option, none, some, ◌==◌, if◌then◌else◌,
}
use shrikedb.Core.Dash.Bits.{set_bit, clear_bit, shift_right, trailing_zeros, low_bits, flip_low}

abbrev pub num_slots : ℕ
num_slots = 12

abbrev pub SlotBitmap : Type 0
SlotBitmap = ℕ

unfoldable pub busy : SlotBitmap → ℕ
busy w = shift_right 18 w

-- The raw mask within ALLOC_MASK, or its complement there.
unfoldable pub probe_mask : Bool → SlotBitmap → ℕ
probe_mask true w = low_bits num_slots (shift_right 4 w)
probe_mask false w = flip_low num_slots (shift_right 4 w)

unfoldable pub size : SlotBitmap → ℕ
size w = w % 16

unfoldable pub is_full : SlotBitmap → Bool
unfolding size
is_full w = size w == num_slots

unfoldable pub find_empty : SlotBitmap → Option ℕ
unfolding busy
find_empty w =
    let free = flip_low num_slots (busy w) in
    if free == 0 then none else some (trailing_zeros 32 free)

-- `(self.0 & !SIZE_MASK) | sz`, for a size of four bits.
abbrev with_size : ℕ → SlotBitmap → SlotBitmap
with_size sz w = w / 16 * 16 + sz

unfoldable pub set_slot : ℕ → Bool → SlotBitmap → SlotBitmap
set_slot i probing w =
    let used = set_bit (18 + i) w in
    let marked = if probing then set_bit (4 + i) used else clear_bit (4 + i) used in
    with_size (marked % 16 + 1) marked

unfoldable pub clear_slot : ℕ → SlotBitmap → SlotBitmap
clear_slot i w =
    let cleared = clear_bit (4 + i) (clear_bit (18 + i) w) in with_size (cleared % 16 - 1) cleared
