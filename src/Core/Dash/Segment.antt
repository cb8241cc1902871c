-- ===== src/Core/Dash/Segment.antt =====
-- `Segment` of segment.rs: 64 regular buckets and 4 stash buckets. A panic is `none`.
pub mod Visit
pub mod Find
pub mod Insert
pub mod InsertNew
pub mod InsertStash
pub mod Order
pub mod Delete
pub mod Split
pub mod Calls
mod Stash
use shrikedb.Prelude.{
  ℕ, zero, suc, ◌+◌, ◌-◌, ◌*◌, ◌/◌, ◌%◌, Bool, true, false, not, ◌&&◌, Option, none, some, List, [],
  ◌∷◌, ◌++◌, ◌==◌, ltb, leb, if◌then◌else◌,
}
use shrikedb.Core.Dash.Bits.{test_bit}
use shrikedb.Core.Dash.SlotBitmap.{busy, is_full}
use shrikedb.Core.Dash.Bucket
use shrikedb.Core.Dash.Bucket.{
  Bucket, Array, update, num_buckets, num_stash, mask_slots, find_matching, try_insert, has_stash,
  has_stash_overflow, set_stash_ptr, unset_stash_ptr, stash_id, new_bucket,
}

-- `(hash >> 8) % NUM_BUCKETS` and `hash & FP_MASK`.
unfoldable pub home_bucket : ℕ → ℕ
home_bucket hash = hash / 256 % num_buckets

unfoldable pub fingerprint : ℕ → ℕ
fingerprint hash = hash % 256

unfoldable pub next_bucket : ℕ → ℕ
next_bucket bid = if ltb bid (num_buckets - 1) then bid + 1 else 0

pub record Segment (K V : Type 0) : Type 0 where
  pub buckets : Array (Bucket K V)
  pub local_depth : ℕ
  pub item_count : ℕ

pub record SegmentPos : Type 0 where
  pub bucket_idx : ℕ
  pub slot_idx : ℕ

abbrev pub at_slot : ℕ → Option ℕ → Option SegmentPos
at_slot bid none = none
at_slot bid (some slot) = some (record { bucket_idx = bid; slot_idx = slot })

abbrev pub or_else {ℓ} : {A : Type ℓ} → Option A → Option A → Option A
or_else none b = b
or_else (some a) b = some a

-- The first of the slots whose key passes the test.
unfoldable pub first_slot : (ℕ → Bool) → List ℕ → Option ℕ
first_slot p [] = none
first_slot p (slot ∷ slots) = let rest = first_slot p slots in if p slot then some slot else rest

-- `Ok` with the segment after the insertion, or `Err`.
pub data Inserted (K V : Type 0) : Type 0 where
  inserted : Segment K V → SegmentPos → Inserted K V
  segment_full : Inserted K V

module _ {K V : Type 0} where
  abbrev pub new_segment : ℕ → Segment K V
  new_segment local_depth = record {
    buckets = λ i. new_bucket;
    local_depth = local_depth;
    item_count = 0;
  }

  -- `eq(bucket.key(slot))`
  abbrev pub key_is : (K → Bool) → Bucket K V → ℕ → Bool
  key_is eq b slot = elim (b.keys slot) [ none ↦ false | some k ↦ eq k ]

  unfoldable pub find_in_bucket : (K → Bool) → ℕ → Bool → Bucket K V → Option ℕ
  unfolding first_slot
  find_in_bucket eq fp probe b = first_slot (key_is eq b) (mask_slots 32 (find_matching fp probe b))

  -- `NUM_BUCKETS + i` for the stash buckets from `i` on, with the overflow scan of `find`.
  unfoldable pub find_overflow : ℕ → ℕ → (K → Bool) → ℕ → Segment K V → Option SegmentPos
  unfolding find_in_bucket
  find_overflow zero i eq fp s = none
  find_overflow (suc n) i eq fp s =
      or_else (at_slot (num_buckets + i) (find_in_bucket eq fp false (s.buckets (num_buckets + i))))
        (find_overflow n (suc i) eq fp s)

  -- The body of the loop of `find_in_stash_via_ptrs` for the pointer `i`.
  unfoldable pub follow_ptr :
      ℕ → (K → Bool) → ℕ → Bool → Bucket K V → Segment K V → Option SegmentPos
  unfolding first_slot
  follow_ptr i eq fp probe b s =
      let bid = num_buckets + stash_id i b.stash_pos in
      let stash = s.buckets bid in
      let here : ℕ → Bool = λ slot. (stash.fingerprints slot == fp) && key_is eq stash slot in
      if test_bit i b.stash_busy
        && (b.stash_fps i == fp)
        && (if probe then test_bit i b.stash_probe_mask else not (test_bit i b.stash_probe_mask))
      then at_slot bid (first_slot here (mask_slots 32 (busy stash.slots)))
      else none

  unfoldable pub follow_ptrs :
      ℕ → ℕ → (K → Bool) → ℕ → Bool → Bucket K V → Segment K V → Option SegmentPos
  unfolding follow_ptr
  follow_ptrs zero i eq fp probe b s = none
  follow_ptrs (suc n) i eq fp probe b s =
      or_else (follow_ptr i eq fp probe b s) (follow_ptrs n (suc i) eq fp probe b s)

  unfoldable pub find_in_stash_via_ptrs :
      ℕ → (K → Bool) → ℕ → Bool → Segment K V → Option SegmentPos
  unfolding follow_ptrs
  find_in_stash_via_ptrs bid eq fp probe s = follow_ptrs num_stash 0 eq fp probe (s.buckets bid) s

  -- The third step of `find`.
  unfoldable pub find_stash : ℕ → (K → Bool) → Segment K V → Option SegmentPos
  unfolding find_in_stash_via_ptrs find_overflow
  find_stash hash eq s =
      let home = home_bucket hash in
      let fp = fingerprint hash in
      if has_stash (s.buckets home)
      then (if has_stash_overflow (s.buckets home)
          then find_overflow num_stash 0 eq fp s
          else or_else (find_in_stash_via_ptrs home eq fp false s)
              (find_in_stash_via_ptrs (next_bucket home) eq fp true s))
      else none

  unfoldable pub find : ℕ → (K → Bool) → Segment K V → Option SegmentPos
  unfolding find_in_bucket find_stash
  find hash eq s =
      let home = home_bucket hash in
      let next = next_bucket home in
      let fp = fingerprint hash in
      or_else (at_slot home (find_in_bucket eq fp false (s.buckets home)))
        (or_else (at_slot next (find_in_bucket eq fp true (s.buckets next))) (find_stash hash eq s))

  -- `try_insert(...).unwrap()`
  abbrev pub insert_at : K → V → ℕ → Bool → ℕ → Segment K V → Option (Segment K V × SegmentPos)
  insert_at key value fp probing bid s = elim (try_insert key value fp probing (s.buckets bid)) [
    | none ↦ none
    | some (b, slot) ↦ some (
      record s { buckets = update bid b s.buckets; item_count = s.item_count + 1 },
      record { bucket_idx = bid; slot_idx = slot },
    )
  ]

  abbrev pub done : Option (Segment K V × SegmentPos) → Option (Inserted K V)
  done none = none
  done (some (s, pos)) = some (inserted s pos)

  -- The pointer from the home bucket after an insertion into the stash.
  abbrev pub with_ptr :
      ℕ → ℕ → ℕ → Option (Segment K V × SegmentPos) → Option (Segment K V × SegmentPos)
  with_ptr home id fp none = none
  with_ptr home id fp (some (s, pos)) = some (
    record s { buckets = update home (set_stash_ptr id fp false (s.buckets home)) s.buckets },
    pos,
  )

  -- The stash buckets from `i` on.
  unfoldable pub insert_stash : ℕ → ℕ → K → V → ℕ → Segment K V → Option (Inserted K V)
  insert_stash zero i key value hash s = some segment_full
  insert_stash (suc n) i key value hash s =
      let bid = num_buckets + i in
      let fp = fingerprint hash in
      let rest = insert_stash n (suc i) key value hash s in
      if is_full (s.buckets bid).slots
      then rest
      else done (with_ptr (home_bucket hash) i fp (insert_at key value fp false bid s))

  unfoldable pub insert_new : K → V → ℕ → Segment K V → Option (Inserted K V)
  unfolding insert_stash
  insert_new key value hash s =
      let home = home_bucket hash in
      let next = next_bucket home in
      let fp = fingerprint hash in
      if not (is_full (s.buckets home).slots)
      then done (insert_at key value fp false home s)
      else if not (is_full (s.buckets next).slots)
      then done (insert_at key value fp true next s)
      else insert_stash num_stash 0 key value hash s

  -- `unset_stash_ptr` of one bucket of the segment.
  abbrev unset_at : ℕ → ℕ → ℕ → Array (Bucket K V) → Array (Bucket K V)
  unset_at bid fp id buckets = update bid (unset_stash_ptr fp id (buckets bid)).0 buckets

  -- The count of the source wraps at 0, where there is no item to delete.
  unfoldable pub delete : SegmentPos → ℕ → Segment K V → Segment K V × Option K × Option V
  delete pos hash s =
      let (b, k, v) = Bucket.delete pos.slot_idx (s.buckets pos.bucket_idx) in
      let buckets = update pos.bucket_idx b s.buckets in
      let home = home_bucket hash in
      let fp = fingerprint hash in
      let id = pos.bucket_idx - num_buckets in
      (
        record s {
          buckets =
              if leb num_buckets pos.bucket_idx
              then unset_at (next_bucket home) fp id (unset_at home fp id buckets)
              else buckets;
          item_count = s.item_count - 1;
        },
        k,
        v,
      )
