-- ===== src/Core/Dash/Segment/Split.antt =====
-- segment.rs: `iter`, `has_capacity` and `split`.
use shrikedb.Prelude.{
  ℕ, zero, suc, ◌+◌, ◌-◌, ◌*◌, ◌/◌, ◌%◌, ◌^◌, Bool, Option, none, some, List, [], ◌∷◌, ◌++◌, map,
  ◌==◌, ltb, if◌then◌else◌,
}
use shrikedb.Core.Dash.SlotBitmap.{busy, num_slots}
use shrikedb.Core.Dash.Bucket.{Bucket, num_buckets, num_stash, mask_slots}
use shrikedb.Core.Dash.Segment.{Segment, SegmentPos, inserted, segment_full, insert_new, delete}

-- A call of the callback: the bucket, the slot, its key and its value.
abbrev pub Call : Type 0 → Type 0 → Type 0
Call K V = ℕ × ℕ × Option K × Option V

abbrev pub total_buckets : ℕ
total_buckets = num_buckets + num_stash

-- `64 - local_depth` as a u32, of which a shift of a u64 takes the low six bits.
abbrev split_bit : ℕ → ℕ
split_bit local_depth = (2 ^ 32 + 64 - local_depth) % 64

module _ {K V : Type 0} where
  abbrev pub call : ℕ → Bucket K V → ℕ → Call K V
  call bid b slot = (bid, slot, b.keys slot, b.values slot)

  -- The calls for one bucket: the loop over the bits of its mask.
  unfoldable pub bucket_calls : ℕ → Bucket K V → List (Call K V)
  bucket_calls bid b = map (call bid b) (mask_slots 32 (busy b.slots))

  -- The buckets from `bid` on.
  unfoldable pub calls_from : ℕ → ℕ → Segment K V → List (Call K V)
  unfolding bucket_calls
  calls_from zero bid s = []
  calls_from (suc n) bid s = bucket_calls bid (s.buckets bid) ++ calls_from n (suc bid) s

  -- The calls of the callback, in their order.
  unfoldable pub iter : Segment K V → List (Call K V)
  unfolding calls_from
  iter s = calls_from total_buckets 0 s

  unfoldable pub has_capacity : Segment K V → Bool
  has_capacity s = ltb s.item_count (num_buckets * num_slots + num_stash * num_slots)

  -- The items to move, with their hashes; a slot of the mask without a key is a panic.
  unfoldable pub to_move : (K → ℕ) → ℕ → List (Call K V) → Option (List (SegmentPos × ℕ))
  to_move hash bit [] = some []
  to_move hash bit ((bid, slot, key, value) ∷ cs) =
      let rest = to_move hash bit cs in
      elim key [
        | none ↦ none
        | some k ↦ elim rest [
          | none ↦ none
          | some ps ↦ some (
              if hash k / 2 ^ bit % 2 == 1
              then (record { bucket_idx = bid; slot_idx = slot }, hash k) ∷ ps
              else ps)
        ]
      ]

  -- An item goes back into the source if `dest` has no place, and is dropped if the source has none.
  unfoldable pub put_back :
      K → V → ℕ → Segment K V → Segment K V → Option (Segment K V × Segment K V)
  unfolding insert_new
  put_back k v hash s dest = elim (insert_new k v hash dest) [
    | none ↦ none
    | some (inserted dest' pos) ↦ some (s, dest')
    | some segment_full ↦ elim (insert_new k v hash s) [
      | none ↦ none
      | some (inserted s' pos) ↦ some (s', dest)
      | some segment_full ↦ some (s, dest)
    ]
  ]

  unfoldable pub move_item :
      SegmentPos → ℕ → Segment K V → Segment K V → Option (Segment K V × Segment K V)
  unfolding put_back delete
  move_item pos hash s dest =
      let (s', k, v) = delete pos hash s in
      elim k [ none ↦ none | some k ↦ elim v [ none ↦ none | some v ↦ put_back k v hash s' dest ] ]

  -- The items are in order and each once, so that the loop over their reverse order is from the last
  -- on.
  unfoldable pub move_items :
      List (SegmentPos × ℕ) → Segment K V → Segment K V → Option (Segment K V × Segment K V)
  unfolding move_item
  move_items [] s dest = some (s, dest)
  move_items ((pos, hash) ∷ ps) s dest = elim (move_items ps s dest) [
    | none ↦ none
    | some (s', dest') ↦ move_item pos hash s' dest'
  ]

  -- `split`: the source and `dest` after it.
  unfoldable pub split : (K → ℕ) → Segment K V → Segment K V → Option (Segment K V × Segment K V)
  unfolding iter to_move move_items
  split hash s dest =
      let depth = (s.local_depth + 1) % 256 in
      elim (to_move hash (split_bit depth) (iter s)) [
        | none ↦ none
        | some ps ↦
            move_items ps (record s { local_depth = depth }) (record dest { local_depth = depth })
      ]
