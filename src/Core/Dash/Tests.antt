-- ===== src/Core/Dash/Tests.antt =====
-- Runs of the segments of the hash table.
use shrikedb.Prelude.{ℕ, ◌<◌, ◌≡◌, refl, true, false, some, [], ◌∷◌, arith, ◌==◌}
use shrikedb.Core.Dash.Bits.{test_bit, set_bit, clear_bit, shift_right, low_bits}
use shrikedb.Core.Dash.SlotBitmap.{set_slot}
use shrikedb.Core.Dash.SlotBitmap.Laws.{in_use}
use shrikedb.Core.Dash.Segment.{
  Segment, SegmentPos, new_segment, home_bucket, find, insert_new, delete,
}
use shrikedb.Core.Dash.Segment.Find.{Finds, Location, at_home}
use shrikedb.Core.Dash.Segment.Insert.{IsPlaced, after, fill-IsPlaced}
use shrikedb.Core.Dash.Segment.InsertNew.{Outcome}
use shrikedb.Core.Dash.Segment.InsertStash.{insert_new-Outcome}
use shrikedb.Core.Dash.Segment.Delete.{Deletes, delete-Deletes}
use shrikedb.Core.Dash.Segment.Order.{IsFound, new_segment-IsPlaced, find-IsPlaced}
use shrikedb.Core.Dash.Segment.Split.{iter}
use shrikedb.Core.Dash.Segment.Calls.{calls_at, iter_lem}

-- The hash of a key is the key.
abbrev same_hash : ℕ → ℕ
same_hash k = k

abbrev empty : Segment ℕ ℕ
empty = new_segment 1

empty-IsPlaced : IsPlaced same_hash empty
empty-IsPlaced = new_segment-IsPlaced same_hash 1

first_free : in_use 0 0 ≡ false
unfolding test_bit
first_free = refl

-- The key 7 with the value 70 in the first slot of the bucket 0.
abbrev one_item : Segment ℕ ℕ
one_item = after same_hash empty empty-IsPlaced 0 0 7 70 false 1 (omega arith) first_free

home_item : Location one_item 7 0 0
unfolding home_bucket shrikedb.Core.Dash.Bucket.update test_bit set_bit clear_bit shift_right
    low_bits set_slot
home_item = at_home 0 refl

one_taken : in_use (one_item.buckets 0).slots 0 ≡ true
unfolding shrikedb.Core.Dash.Bucket.update test_bit set_bit clear_bit shift_right low_bits set_slot
one_taken = refl

one_item-IsPlaced : IsPlaced same_hash one_item
one_item-IsPlaced =
    fill-IsPlaced same_hash empty empty-IsPlaced 0 0 7 70 false 1 (omega arith) first_free home_item

few_overflows : (one_item.buckets (home_bucket 3)).overflow_count < 255
unfolding home_bucket shrikedb.Core.Dash.Bucket.update
few_overflows = omega arith

insert_new-Outcome_example : Outcome same_hash one_item 3 30 (insert_new 3 30 3 one_item)
insert_new-Outcome_example =
    insert_new-Outcome same_hash 3 30 one_item one_item-IsPlaced few_overflows

find-IsPlaced_example :
    ((h : ℕ) (pos : SegmentPos)
      → find h (λ k. k == 7) one_item ≡ some pos
      → IsFound (λ k. k == 7) one_item pos)
    × ((bid slot : ℕ) (k : ℕ)
        → in_use (one_item.buckets bid).slots slot ≡ true
        → (one_item.buckets bid).keys slot ≡ some k
        → (k == 7) ≡ true
        → Finds (find k (λ k. k == 7) one_item))
find-IsPlaced_example = find-IsPlaced same_hash one_item (λ k. k == 7) one_item-IsPlaced

delete-Deletes_example :
    Deletes same_hash one_item
      (record { bucket_idx = 0; slot_idx = 0 })
      (delete (record { bucket_idx = 0; slot_idx = 0 }) 7 one_item)
delete-Deletes_example =
    delete-Deletes same_hash one_item one_item-IsPlaced 0 0 one_taken 7 (omega arith)

iter_lem_example : calls_at 0 0 (iter one_item) ≡ (0, 0, some 7, some 70) ∷ []
unfolding shrikedb.Core.Dash.Bucket.update test_bit set_bit clear_bit shift_right low_bits set_slot
iter_lem_example = iter_lem same_hash one_item one_item-IsPlaced 0 0 (omega arith)
