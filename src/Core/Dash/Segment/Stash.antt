-- ===== src/Core/Dash/Segment/Stash.antt =====
-- A run in which the deletion of one key hides another: what `delete` does to the pointers of the
-- next bucket.
use shrikedb.Prelude.{
  ℕ, zero, suc, ◌+◌, ◌≡◌, refl, Bool, true, false, Option, none, some, List, [], ◌∷◌, ◌++◌, ◌*◌,
  ◌/◌, ◌==◌, if◌then◌else◌,
}
use shrikedb.Core.Dash.Bucket.{Bucket, Array}
use shrikedb.Core.Dash.Segment.{
  Segment, SegmentPos, Inserted, inserted, segment_full, new_segment, find, insert_new, delete,
}

-- Inserts the keys `k` for which the hash is `hash k`, with themselves as values.
unfoldable pub insert_all : (ℕ → ℕ) → List ℕ → Segment ℕ ℕ → Option (Segment ℕ ℕ)
insert_all hash [] s = some s
insert_all hash (k ∷ ks) s = elim (insert_new k k (hash k) s) [
  | none ↦ none
  | some segment_full ↦ none
  | some (inserted s' pos) ↦ insert_all hash ks s'
]

unfoldable pub remove_key : (ℕ → ℕ) → ℕ → Segment ℕ ℕ → Segment ℕ ℕ
remove_key hash k s = elim (find (hash k) (λ j. k == j) s) [
  | none ↦ s
  | some pos ↦ (delete pos (hash k) s).0
]

unfoldable pub has_key : (ℕ → ℕ) → ℕ → Segment ℕ ℕ → Bool
has_key hash k s = elim (find (hash k) (λ j. k == j) s) [ none ↦ false | some pos ↦ true ]

unfoldable pub range : ℕ → ℕ → List ℕ
range zero k = []
range (suc n) k = k ∷ range n (suc k)

-- Keys below 100 have the home bucket 0, keys from 100 to 199 the home bucket 1, those from 200 the
-- home bucket 2. All have the fingerprint 7.
abbrev hash : ℕ → ℕ
hash k = (if k / 100 == 0 then 0 else if k / 100 == 1 then 1 else 2) * 256 + 7

-- The buckets 0, 1 and 2 are full; the keys 112 and 12 are in the first stash bucket.
abbrev loaded : Option (Segment ℕ ℕ)
loaded =
    insert_all hash (range 12 0 ++ (range 12 100 ++ (range 12 200 ++ (112 ∷ 12 ∷ []))))
      (new_segment 1)

abbrev on_loaded : (Segment ℕ ℕ → Bool) → Option (Segment ℕ ℕ) → Bool
on_loaded f none = false
on_loaded f (some s) = f s

found_before : on_loaded (has_key hash 112) loaded ≡ true
unfolding insert_all has_key remove_key range insert_new find delete
    shrikedb.Core.Dash.SlotBitmap.is_full shrikedb.Core.Dash.Bucket.try_insert
    shrikedb.Core.Dash.SlotBitmap.find_empty shrikedb.Core.Dash.Bits.flip_low
    shrikedb.Core.Dash.Bits.shift_right shrikedb.Core.Dash.Bucket.update
    shrikedb.Core.Dash.Segment.home_bucket shrikedb.Core.Dash.SlotBitmap.set_slot
    shrikedb.Core.Dash.SlotBitmap.clear_slot shrikedb.Core.Dash.Bits.clear_bit
    shrikedb.Core.Dash.Bits.trailing_zeros shrikedb.Core.Dash.Bits.set_bit
    shrikedb.Core.Dash.Segment.next_bucket shrikedb.Core.Dash.Bucket.set_stash_ptr
    shrikedb.Core.Dash.Bucket.unset_stash_ptr shrikedb.Core.Dash.Bits.test_bit
    shrikedb.Core.Dash.Bits.low_bits shrikedb.Core.Dash.Bucket.delete
    shrikedb.Core.Dash.Bucket.find_matching shrikedb.Core.Dash.Bucket.first
    shrikedb.Core.Dash.Bucket.has_stash shrikedb.Core.Dash.Bucket.has_stash_overflow
    shrikedb.Core.Dash.Bucket.mask_slots shrikedb.Core.Dash.Bucket.match_mask
    shrikedb.Core.Dash.Bucket.set_stash_id shrikedb.Core.Dash.Bucket.stash_id
    shrikedb.Core.Dash.Segment.find_in_bucket shrikedb.Core.Dash.Segment.find_in_stash_via_ptrs
    shrikedb.Core.Dash.Segment.find_overflow shrikedb.Core.Dash.Segment.find_stash
    shrikedb.Core.Dash.Segment.fingerprint shrikedb.Core.Dash.Segment.first_slot
    shrikedb.Core.Dash.Segment.follow_ptr shrikedb.Core.Dash.Segment.follow_ptrs
    shrikedb.Core.Dash.Segment.insert_stash shrikedb.Core.Dash.SlotBitmap.busy
    shrikedb.Core.Dash.SlotBitmap.probe_mask shrikedb.Core.Dash.SlotBitmap.size
found_before = refl

-- The key 112 is still in the stash, but `find` no longer gets there.
lost_after : on_loaded (λ s. has_key hash 112 (remove_key hash 12 s)) loaded ≡ false
unfolding insert_all has_key remove_key range insert_new find delete
    shrikedb.Core.Dash.SlotBitmap.is_full shrikedb.Core.Dash.Bucket.try_insert
    shrikedb.Core.Dash.SlotBitmap.find_empty shrikedb.Core.Dash.Bits.flip_low
    shrikedb.Core.Dash.Bits.shift_right shrikedb.Core.Dash.Bucket.update
    shrikedb.Core.Dash.Segment.home_bucket shrikedb.Core.Dash.SlotBitmap.set_slot
    shrikedb.Core.Dash.SlotBitmap.clear_slot shrikedb.Core.Dash.Bits.clear_bit
    shrikedb.Core.Dash.Bits.trailing_zeros shrikedb.Core.Dash.Bits.set_bit
    shrikedb.Core.Dash.Segment.next_bucket shrikedb.Core.Dash.Bucket.set_stash_ptr
    shrikedb.Core.Dash.Bucket.unset_stash_ptr shrikedb.Core.Dash.Bits.test_bit
    shrikedb.Core.Dash.Bits.low_bits shrikedb.Core.Dash.Bucket.delete
    shrikedb.Core.Dash.Bucket.find_matching shrikedb.Core.Dash.Bucket.first
    shrikedb.Core.Dash.Bucket.has_stash shrikedb.Core.Dash.Bucket.has_stash_overflow
    shrikedb.Core.Dash.Bucket.mask_slots shrikedb.Core.Dash.Bucket.match_mask
    shrikedb.Core.Dash.Bucket.set_stash_id shrikedb.Core.Dash.Bucket.stash_id
    shrikedb.Core.Dash.Segment.find_in_bucket shrikedb.Core.Dash.Segment.find_in_stash_via_ptrs
    shrikedb.Core.Dash.Segment.find_overflow shrikedb.Core.Dash.Segment.find_stash
    shrikedb.Core.Dash.Segment.fingerprint shrikedb.Core.Dash.Segment.first_slot
    shrikedb.Core.Dash.Segment.follow_ptr shrikedb.Core.Dash.Segment.follow_ptrs
    shrikedb.Core.Dash.Segment.insert_stash shrikedb.Core.Dash.SlotBitmap.busy
    shrikedb.Core.Dash.SlotBitmap.probe_mask shrikedb.Core.Dash.SlotBitmap.size
lost_after = refl
