-- ===== src/Core/Dash/Segment/Delete.antt =====
-- `delete` of segment.rs, for an item in a regular bucket.
use mathlib.Core.Path.{subst}
use shrikedb.Prelude.{
  ℕ, ◌-◌, ◌<◌, ◌≡◌, refl, ap, sym, ◌∙◌, true, false, Option, none, some, arith, ◌==◌, leb,
  if◌then◌else◌, Bool-cases, inl, inr,
}
use shrikedb.Core.Dash.SlotBitmap.{num_slots, clear_slot}
use shrikedb.Core.Dash.SlotBitmap.Laws.{
  in_use, is_probing, in_use-clear_slot, is_probing-clear_slot,
}
use shrikedb.Core.Dash.SlotBitmap.Counted.{==_equal, clear_slot-IsCounted}
use shrikedb.Core.Dash.Bucket
use shrikedb.Core.Dash.Bucket.{Bucket, update, num_buckets, has_stash, has_stash_overflow}
use shrikedb.Core.Dash.Bucket.Pointers.{Reaches}
use shrikedb.Core.Dash.Segment.{Segment, SegmentPos, delete}
use shrikedb.Core.Dash.Segment.Insert.{
  IsSound, IsHeld, IsPlaced, Location-map, put_bucket, update_here, update_other, ==_self, SameSlot,
  AgreeBeside,
}

-- The bucket without the item of the slot.
abbrev pub emptied : {K V : Type 0} → ℕ → Bucket K V → Bucket K V
emptied slot b = record b {
  slots = clear_slot slot b.slots;
  keys = update slot none b.keys;
  values = update slot none b.values;
}

-- The deletion of the item at `pos`, with the key and the value of the item in the result.
pub record Deletes {K V : Type 0} (hash : K → ℕ) (s : Segment K V) (pos : SegmentPos)
    (r : Segment K V × Option K × Option V) : Type 0 where
  pub ordered : IsPlaced hash r.0
  pub gone : in_use (r.0.buckets pos.bucket_idx).slots pos.slot_idx ≡ false
  pub others : AgreeBeside s r.0 pos
  pub one_less : r.0.item_count ≡ s.item_count - 1
  pub key : K
  pub value : V
  pub returned : (r.1 ≡ some key) × (r.2 ≡ some value)
  pub key_lem : (s.buckets pos.bucket_idx).keys pos.slot_idx ≡ some key
  pub value_lem : (s.buckets pos.bucket_idx).values pos.slot_idx ≡ some value

module _ {K V : Type 0} (hash : K → ℕ) (s : Segment K V) (placed : IsPlaced hash s) (bid slot : ℕ)
    (taken : in_use (s.buckets bid).slots slot ≡ true) where
  abbrev emptied_bucket : Bucket K V
  emptied_bucket = emptied slot (s.buckets bid)

  abbrev left : Segment K V
  left = put_bucket bid emptied_bucket (s.item_count - 1) s

  inside : slot < num_slots
  inside = (placed.sound bid).words slot taken

  in_use-emptied :
      (j : ℕ)
      → in_use emptied_bucket.slots j
        ≡ (if slot == j then false else in_use (s.buckets bid).slots j)
  in_use-emptied j = in_use-clear_slot slot (s.buckets bid).slots inside j

  still_used :
      (j : ℕ) → in_use emptied_bucket.slots j ≡ true → in_use (s.buckets bid).slots j ≡ true
  still_used j h = ground (arith, in_use-emptied j)

  still_other : (j : ℕ) → in_use emptied_bucket.slots j ≡ true → (slot == j) ≡ false
  still_other j h = ground (arith, in_use-emptied j)

  left-IsSound : (i : ℕ) → IsSound (left.buckets i)
  left-IsSound i = elim (Bool-cases (bid == i)) [
    | inl same ↦ rw (update_here bid emptied_bucket s.buckets i same) (record {
      words = λ j h. (placed.sound bid).words j (still_used j h);
      counted =
          clear_slot-IsCounted slot (s.buckets bid).slots inside taken (placed.sound bid).counted;
    })
    | inr other ↦ rw (update_other bid emptied_bucket s.buckets i other) (placed.sound i)
  ]

  emptied-Reaches : (fp id : ℕ) → Reaches fp id (s.buckets bid) → Reaches fp id emptied_bucket
  unfolding has_stash has_stash_overflow
  emptied-Reaches fp id r = record { flag = r.flag; way = r.way }

  left-Reaches : (i fp id : ℕ) → Reaches fp id (s.buckets i) → Reaches fp id (left.buckets i)
  left-Reaches i fp id r = elim (Bool-cases (bid == i)) [
    | inl same ↦ rw (update_here bid emptied_bucket s.buckets i same) (
        emptied-Reaches fp id
          (subst (λ x. Reaches fp id (s.buckets x)) (sym (==_equal bid i same)) r))
    | inr other ↦ rw (update_other bid emptied_bucket s.buckets i other) r
  ]

  left_lem : left.buckets bid ≡ emptied_bucket
  left_lem = update_here bid emptied_bucket s.buckets bid (==_self bid)

  beside-SameSlot : (j : ℕ) → (slot == j) ≡ false → SameSlot s left bid j
  beside-SameSlot j other = record {
    in_use_lem = ap (λ b. in_use b.slots j) left_lem ∙ in_use-emptied j ∙ rw other refl;
    keys_lem = ap (λ b. b.keys j) left_lem ∙ update_other slot none (s.buckets bid).keys j other;
    values_lem =
        ap (λ b. b.values j) left_lem ∙ update_other slot none (s.buckets bid).values j other;
  }

  left-AgreeBeside : AgreeBeside s left (record { bucket_idx = bid; slot_idx = slot })
  left-AgreeBeside i j other = elim (Bool-cases (bid == i)) [
    | inl same ↦
        subst (λ x. SameSlot s left x j) (==_equal bid i same)
          (beside-SameSlot j (rw same at other))
    | inr apart ↦
        let e = update_other bid emptied_bucket s.buckets i apart in
        record {
          in_use_lem = ap (λ b. in_use b.slots j) e;
          keys_lem = ap (λ b. b.keys j) e;
          values_lem = ap (λ b. b.values j) e;
        }
  ]

  -- An item in a slot that holds what it held.
  kept-IsHeld :
      (i j : ℕ)
      → IsHeld hash s i j
      → SameSlot s left i j
      → (left.buckets i).fingerprints j ≡ (s.buckets i).fingerprints j
      → is_probing (left.buckets i).slots j ≡ is_probing (s.buckets i).slots j
      → IsHeld hash left i j
  kept-IsHeld i j item same f p = record {
    key = item.key;
    value = item.value;
    keys_lem = same.keys_lem ∙ item.keys_lem;
    values_lem = same.values_lem ∙ item.values_lem;
    print = f ∙ item.print;
    place = Location-map s left (hash item.key) left-Reaches p item.place;
  }

  beside-IsHeld : (j : ℕ) → in_use emptied_bucket.slots j ≡ true → IsHeld hash left bid j
  beside-IsHeld j h =
      let other = still_other j h in
      kept-IsHeld bid j (placed.held bid j (still_used j h)) (beside-SameSlot j other)
        (ap (λ b. b.fingerprints j) left_lem)
        (ap (λ b. is_probing b.slots j) left_lem
          ∙ is_probing-clear_slot slot (s.buckets bid).slots inside j
              ((placed.sound bid).words j (still_used j h))
          ∙ rw other refl)

  left-IsHeld : (i j : ℕ) → in_use (left.buckets i).slots j ≡ true → IsHeld hash left i j
  left-IsHeld i j h = elim (Bool-cases (bid == i)) [
    | inl same ↦
        subst (λ x. IsHeld hash left x j) (==_equal bid i same)
          (beside-IsHeld j (rw (update_here bid emptied_bucket s.buckets i same) at h))
    | inr apart ↦
        let e = update_other bid emptied_bucket s.buckets i apart in
        kept-IsHeld i j (placed.held i j (rw e at h))
          (record {
            in_use_lem = ap (λ b. in_use b.slots j) e;
            keys_lem = ap (λ b. b.keys j) e;
            values_lem = ap (λ b. b.values j) e;
          })
          (ap (λ b. b.fingerprints j) e) (ap (λ b. is_probing b.slots j) e)
  ]

  regular_run :
      (h : ℕ)
      → bid < num_buckets
      → delete (record { bucket_idx = bid; slot_idx = slot }) h s
        ≡ (left, (s.buckets bid).keys slot, (s.buckets bid).values slot)
  unfolding delete Bucket.delete
  regular_run h regular =
      let below : leb num_buckets bid ≡ false = ground arith in rw (delete, below) refl

  -- The deletion of an item of a regular bucket empties its slot and gives its key and its value
  -- back; no other slot changes, the count is one less, and the segment stays in order.
  pub delete-Deletes :
      (h : ℕ)
      → bid < num_buckets
      → Deletes hash s
          (record { bucket_idx = bid; slot_idx = slot })
          (delete (record { bucket_idx = bid; slot_idx = slot }) h s)
  delete-Deletes h regular =
      let item = placed.held bid slot taken in
      rw (regular_run h regular) (record {
        ordered = record { sound = left-IsSound; held = left-IsHeld };
        gone =
            ap (λ b. in_use b.slots slot) left_lem ∙ in_use-emptied slot ∙ rw (==_self slot) refl;
        others = left-AgreeBeside;
        one_less = refl;
        key = item.key;
        value = item.value;
        returned = (item.keys_lem, item.values_lem);
        key_lem = item.keys_lem;
        value_lem = item.values_lem;
      })
