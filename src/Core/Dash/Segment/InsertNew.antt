-- ===== src/Core/Dash/Segment/InsertNew.antt =====
-- `insert_new`: it never panics, and the segment stays in order with the new item in it.
use shrikedb.Prelude.{ℕ, ◌+◌, ◌<◌, ◌≡◌, refl, ap, ◌∙◌, Bool, true, false, Option, some}
use shrikedb.Core.Dash.SlotBitmap.{num_slots, find_empty, is_full}
use shrikedb.Core.Dash.SlotBitmap.Laws.{
  in_use, is_probing, find_empty-free, is_probing-set_slot, in_use-set_slot,
}
use shrikedb.Core.Dash.SlotBitmap.Counted.{not_full-some, size-room}
use shrikedb.Core.Dash.Bucket.{num_buckets, num_stash, filled, try_insert}
use shrikedb.Core.Dash.Segment.{
  Segment, SegmentPos, home_bucket, fingerprint, next_bucket, Inserted, inserted, segment_full,
  insert_at, done,
}
use shrikedb.Core.Dash.Segment.Find.{Location, at_home, at_next}
use shrikedb.Core.Dash.Segment.Insert.{
  IsPlaced, put_bucket, update_here, ==_self, fill-IsPlaced, fill-AgreeBeside, AgreeBeside,
}

-- No bucket takes an item with this hash.
pub record IsFullFor {K V : Type 0} (s : Segment K V) (hash : ℕ) : Type 0 where
  pub home_full : is_full (s.buckets (home_bucket hash)).slots ≡ true
  pub next_full : is_full (s.buckets (next_bucket (home_bucket hash))).slots ≡ true
  pub stash_full : (id : ℕ) → id < num_stash → is_full (s.buckets (num_buckets + id)).slots ≡ true

-- An insertion into the segment `s` that puts the item into a free slot, changes no other slot and
-- leaves the segment in order, or finds the segment full.
pub data Outcome {K V : Type 0} (hash : K → ℕ) (s : Segment K V) (key : K) (value : V)
    : Option (Inserted K V) → Type 0 where
  stored :
      (s' : Segment K V) (pos : SegmentPos)
      → IsPlaced hash s'
      → in_use (s.buckets pos.bucket_idx).slots pos.slot_idx ≡ false
      → in_use (s'.buckets pos.bucket_idx).slots pos.slot_idx ≡ true
      → (s'.buckets pos.bucket_idx).keys pos.slot_idx ≡ some key
      → (s'.buckets pos.bucket_idx).values pos.slot_idx ≡ some value
      → AgreeBeside s s' pos
      → s'.item_count ≡ s.item_count + 1
      → Outcome hash s key value (some (inserted s' pos))
  no_room : IsFullFor s (hash key) → Outcome hash s key value (some segment_full)

module _ {K V : Type 0} (hash : K → ℕ) (key : K) (value : V) where
  -- The segment with the item in a slot.
  abbrev pub stored_at : Segment K V → Bool → ℕ → ℕ → Segment K V
  stored_at s probing bid slot =
      put_bucket bid (filled slot key value (fingerprint (hash key)) probing (s.buckets bid))
        (s.item_count + 1) s

  pub insert_at-run :
      (s : Segment K V) (probing : Bool) (bid slot : ℕ)
      → find_empty (s.buckets bid).slots ≡ some slot
      → insert_at key value (fingerprint (hash key)) probing bid s
        ≡ some (stored_at s probing bid slot, record { bucket_idx = bid; slot_idx = slot })
  unfolding try_insert
  insert_at-run s probing bid slot found = rw (insert_at, try_insert, found) refl

  module _ (s : Segment K V) (placed : IsPlaced hash s) (probing : Bool) (bid slot : ℕ)
      (found : find_empty (s.buckets bid).slots ≡ some slot) where
    pub inside_free : (slot < num_slots) × (in_use (s.buckets bid).slots slot ≡ false)
    inside_free = find_empty-free (s.buckets bid).slots slot found

    pub stored-here :
        (stored_at s probing bid slot).buckets bid
        ≡ filled slot key value (fingerprint (hash key)) probing (s.buckets bid)
    stored-here = update_here bid _ s.buckets bid (==_self bid)

    pub stored-side : is_probing ((stored_at s probing bid slot).buckets bid).slots slot ≡ probing
    stored-side =
        ap (λ b. is_probing b.slots slot) stored-here
        ∙ is_probing-set_slot slot (s.buckets bid).slots inside_free.0 probing slot
            (size-room (s.buckets bid).slots (placed.sound bid).counted) inside_free.0
        ∙ rw (==_self slot) refl

    pub stored-taken : in_use ((stored_at s probing bid slot).buckets bid).slots slot ≡ true
    stored-taken =
        ap (λ b. in_use b.slots slot) stored-here
        ∙ in_use-set_slot slot (s.buckets bid).slots inside_free.0 probing slot
            (size-room (s.buckets bid).slots (placed.sound bid).counted)
        ∙ rw (==_self slot) refl

    pub stored-keys : ((stored_at s probing bid slot).buckets bid).keys slot ≡ some key
    stored-keys =
        ap (λ b. b.keys slot) stored-here ∙ update_here slot (some key) _ slot (==_self slot)

    pub stored-values : ((stored_at s probing bid slot).buckets bid).values slot ≡ some value
    stored-values =
        ap (λ b. b.values slot) stored-here ∙ update_here slot (some value) _ slot (==_self slot)

    stored-Outcome :
        Location (stored_at s probing bid slot) (hash key) bid slot
        → Outcome hash s key value
            (done (insert_at key value (fingerprint (hash key)) probing bid s))
    stored-Outcome place = rw (insert_at-run s probing bid slot found) (
        stored _ _
          (fill-IsPlaced hash s placed bid slot key value probing (s.item_count + 1) inside_free.0
            inside_free.1 place)
          inside_free.1 stored-taken stored-keys stored-values
          (fill-AgreeBeside hash s placed bid slot key value probing (s.item_count + 1)
            inside_free.0 inside_free.1)
          refl)

  module _ (s : Segment K V) (placed : IsPlaced hash s) where
    pub home-Outcome :
        is_full (s.buckets (home_bucket (hash key))).slots ≡ false
        → Outcome hash s key value
            (done (insert_at key value (fingerprint (hash key)) false (home_bucket (hash key)) s))
    home-Outcome room =
        let home = home_bucket (hash key) in
        let (slot, found) = not_full-some (s.buckets home).slots (placed.sound home).counted room in
        stored-Outcome s placed false home slot found
          (at_home slot (stored-side s placed false home slot found))

    pub next-Outcome :
        is_full (s.buckets (next_bucket (home_bucket (hash key)))).slots ≡ false
        → Outcome hash s key value (
            done (
              insert_at key value
                (fingerprint (hash key))
                true
                (next_bucket (home_bucket (hash key)))
                s))
    next-Outcome room =
        let next = next_bucket (home_bucket (hash key)) in
        let (slot, found) = not_full-some (s.buckets next).slots (placed.sound next).counted room in
        stored-Outcome s placed true next slot found
          (at_next slot (stored-side s placed true next slot found))
