-- ===== src/Core/Dash/Segment/Insert.antt =====
-- `insert_new` of segment.rs keeps every item where `find` gets to it.
use mathlib.Core.Path.{subst}
use shrikedb.Prelude.{
  ℕ, ◌<◌, ◌≡◌, refl, ap, sym, ◌∙◌, Bool, true, false, ◌&&◌, some, arith, ◌==◌, if◌then◌else◌,
  Bool-cases, inl, inr,
}
use shrikedb.Core.Dash.SlotBitmap.{num_slots}
use shrikedb.Core.Dash.SlotBitmap.Laws.{in_use, is_probing, in_use-set_slot, is_probing-set_slot}
use shrikedb.Core.Dash.SlotBitmap.Counted.{IsCounted, ==_equal, set_slot-IsCounted, size-room}
use shrikedb.Core.Dash.Bucket.{Bucket, Array, update, filled, has_stash, has_stash_overflow}
use shrikedb.Core.Dash.Segment.{Segment, SegmentPos, home_bucket, fingerprint}
use shrikedb.Core.Dash.Bucket.Pointers.{Reaches}
use shrikedb.Core.Dash.Segment.Find.{Location, at_home, at_next, in_stash}

-- A bucket whose counter is right and that uses no slot beyond the last one.
pub record IsSound {K V : Type 0} (b : Bucket K V) : Type 0 where
  pub words : (i : ℕ) → in_use b.slots i ≡ true → i < num_slots
  pub counted : IsCounted b.slots

-- A slot with an item, which stands where the key may stand.
pub record IsHeld {K V : Type 0} (hash : K → ℕ) (s : Segment K V) (bid slot : ℕ) : Type 0 where
  pub key : K
  pub value : V
  pub keys_lem : (s.buckets bid).keys slot ≡ some key
  pub values_lem : (s.buckets bid).values slot ≡ some value
  pub print : (s.buckets bid).fingerprints slot ≡ fingerprint (hash key)
  pub place : Location s (hash key) bid slot

pub record IsPlaced {K V : Type 0} (hash : K → ℕ) (s : Segment K V) : Type 0 where
  pub sound : (bid : ℕ) → IsSound (s.buckets bid)
  pub held : (bid slot : ℕ) → in_use (s.buckets bid).slots slot ≡ true → IsHeld hash s bid slot

module _ {K V : Type 0} (b : Bucket K V) (sound : IsSound b) where
  module _ (slot : ℕ) (key : K) (value : V) (fp : ℕ) (probing : Bool) (inside : slot < num_slots)
      (free : in_use b.slots slot ≡ false) where
    in_use-filled :
        (i : ℕ)
        → in_use (filled slot key value fp probing b).slots i
          ≡ (if slot == i then true else in_use b.slots i)
    in_use-filled i =
        in_use-set_slot slot b.slots inside probing i (size-room b.slots sound.counted)

    still_inside : (i : ℕ) → (if slot == i then true else in_use b.slots i) ≡ true → i < num_slots
    still_inside i taken = elim (Bool-cases (slot == i)) [
      | inl same ↦ subst (λ x. x < num_slots) (==_equal slot i same) inside
      | inr other ↦ sound.words i (rw other at taken)
    ]

    filled-IsSound : IsSound (filled slot key value fp probing b)
    filled-IsSound = record {
      words = λ i taken. still_inside i (sym (in_use-filled i) ∙ taken);
      counted = set_slot-IsCounted slot b.slots inside probing free sound.counted;
    }

    is_probing-filled :
        (i : ℕ)
        → i < num_slots
        → is_probing (filled slot key value fp probing b).slots i
          ≡ (if slot == i then probing else is_probing b.slots i)
    is_probing-filled i h =
        is_probing-set_slot slot b.slots inside probing i (size-room b.slots sound.counted) h

    pub filled-Reaches :
        (fp2 id : ℕ) → Reaches fp2 id b → Reaches fp2 id (filled slot key value fp probing b)
    unfolding has_stash has_stash_overflow
    filled-Reaches fp2 id r = record { flag = r.flag; way = r.way }

pub Location-map :
    {K V : Type 0} (s s' : Segment K V) (hash : ℕ)
    → ((bid fp id : ℕ) → Reaches fp id (s.buckets bid) → Reaches fp id (s'.buckets bid))
    → {bid slot : ℕ}
    → is_probing (s'.buckets bid).slots slot ≡ is_probing (s.buckets bid).slots slot
    → Location s hash bid slot
    → Location s' hash bid slot
Location-map s s' hash reach side (at_home slot e) = at_home slot (side ∙ e)
Location-map s s' hash reach side (at_next slot e) = at_next slot (side ∙ e)
Location-map s s' hash reach side (in_stash id slot below e r) =
    in_stash id slot below (side ∙ e) (reach (home_bucket hash) (fingerprint hash) id r)

-- A change of one bucket.
abbrev pub put_bucket : {K V : Type 0} → ℕ → Bucket K V → ℕ → Segment K V → Segment K V
put_bucket bid b count s = record s { buckets = update bid b s.buckets; item_count = count }

module _ {A : Type 0} (bid : ℕ) (b : A) (a : Array A) where
  pub update_here : (i : ℕ) → (bid == i) ≡ true → update bid b a i ≡ b
  unfolding update
  update_here i same = rw same refl

  pub update_other : (i : ℕ) → (bid == i) ≡ false → update bid b a i ≡ a i
  unfolding update
  update_other i other = rw other refl

pub ==_self : (i : ℕ) → (i == i) ≡ true
==_self i = ground arith

module _ {K V : Type 0} (hash : K → ℕ) (s : Segment K V) (placed : IsPlaced hash s) (bid slot : ℕ)
    (key : K) (value : V) (probing : Bool) (count : ℕ) (inside : slot < num_slots)
    (free : in_use (s.buckets bid).slots slot ≡ false) where
  abbrev pub full_bucket : Bucket K V
  full_bucket = filled slot key value (fingerprint (hash key)) probing (s.buckets bid)

  abbrev pub after : Segment K V
  after = put_bucket bid full_bucket count s

  after-Reaches : (i fp id : ℕ) → Reaches fp id (s.buckets i) → Reaches fp id (after.buckets i)
  after-Reaches i fp id r = elim (Bool-cases (bid == i)) [
    | inl same ↦ rw (update_here bid full_bucket s.buckets i same) (
        filled-Reaches (s.buckets bid) (placed.sound bid) slot key value (fingerprint (hash key))
          probing inside free fp id
          (subst (λ x. Reaches fp id (s.buckets x)) (sym (==_equal bid i same)) r))
    | inr other ↦ rw (update_other bid full_bucket s.buckets i other) r
  ]

  after-IsSound : (i : ℕ) → IsSound (after.buckets i)
  after-IsSound i = elim (Bool-cases (bid == i)) [
    | inl same ↦ rw (update_here bid full_bucket s.buckets i same) (
        filled-IsSound (s.buckets bid) (placed.sound bid) slot key value (fingerprint (hash key))
          probing inside free)
    | inr other ↦ rw (update_other bid full_bucket s.buckets i other) (placed.sound i)
  ]

  -- An item that was there before.
  old-IsHeld :
      (i j : ℕ)
      → IsHeld hash s i j
      → (after.buckets i).keys j ≡ (s.buckets i).keys j
      → (after.buckets i).values j ≡ (s.buckets i).values j
      → (after.buckets i).fingerprints j ≡ (s.buckets i).fingerprints j
      → is_probing (after.buckets i).slots j ≡ is_probing (s.buckets i).slots j
      → IsHeld hash after i j
  old-IsHeld i j item k v f p = record {
    key = item.key;
    value = item.value;
    keys_lem = k ∙ item.keys_lem;
    values_lem = v ∙ item.values_lem;
    print = f ∙ item.print;
    place = Location-map s after (hash item.key) after-Reaches p item.place;
  }

  pub here_lem : after.buckets bid ≡ full_bucket
  here_lem = update_here bid full_bucket s.buckets bid (==_self bid)

  new-IsHeld : Location after (hash key) bid slot → IsHeld hash after bid slot
  new-IsHeld place = record {
    key = key;
    value = value;
    keys_lem =
        ap (λ b. b.keys slot) here_lem
        ∙ update_here slot (some key) (s.buckets bid).keys slot (==_self slot);
    values_lem =
        ap (λ b. b.values slot) here_lem
        ∙ update_here slot (some value) (s.buckets bid).values slot (==_self slot);
    print =
        ap (λ b. b.fingerprints slot) here_lem
        ∙ update_here slot (fingerprint (hash key)) (s.buckets bid).fingerprints slot
            (==_self slot);
    place = place;
  }

  -- Another slot of the same bucket.
  beside-IsHeld :
      (j : ℕ) → (slot == j) ≡ false → in_use full_bucket.slots j ≡ true → IsHeld hash after bid j
  beside-IsHeld j other taken =
      let sound = placed.sound bid in
      let old_taken : in_use (s.buckets bid).slots j ≡ true = rw other at (
        sym (
          in_use-filled (s.buckets bid) sound slot key value (fingerprint (hash key)) probing inside
            free j)
        ∙ taken) in
      old-IsHeld bid j (placed.held bid j old_taken)
        (ap (λ b. b.keys j) here_lem ∙ update_other slot (some key) (s.buckets bid).keys j other)
        (ap (λ b. b.values j) here_lem
          ∙ update_other slot (some value) (s.buckets bid).values j other)
        (ap (λ b. b.fingerprints j) here_lem
          ∙ update_other slot (fingerprint (hash key)) (s.buckets bid).fingerprints j other)
        (ap (λ b. is_probing b.slots j) here_lem
          ∙ is_probing-filled (s.buckets bid) sound slot key value (fingerprint (hash key)) probing
              inside free j (sound.words j old_taken)
          ∙ rw other refl)

  elsewhere-IsHeld :
      (i j : ℕ)
      → (bid == i) ≡ false
      → in_use (after.buckets i).slots j ≡ true
      → IsHeld hash after i j
  elsewhere-IsHeld i j other taken =
      let e = update_other bid full_bucket s.buckets i other in
      old-IsHeld i j (placed.held i j (rw e at taken)) (ap (λ b. b.keys j) e)
        (ap (λ b. b.values j) e) (ap (λ b. b.fingerprints j) e) (ap (λ b. is_probing b.slots j) e)

  after-IsHeld :
      Location after (hash key) bid slot
      → (i j : ℕ) → in_use (after.buckets i).slots j ≡ true
      → IsHeld hash after i j
  after-IsHeld place i j taken = elim (Bool-cases (bid == i)) [
    | inl same ↦
        subst (λ x. IsHeld hash after x j) (==_equal bid i same)
          (elim (Bool-cases (slot == j)) [
            | inl new ↦
                subst (λ x. IsHeld hash after bid x) (==_equal slot j new) (new-IsHeld place)
            | inr other ↦
                beside-IsHeld j other (rw (update_here bid full_bucket s.buckets i same) at taken)
          ])
    | inr other ↦ elsewhere-IsHeld i j other taken
  ]

  -- An item put into a free slot where its key may stand keeps the segment in order.
  pub fill-IsPlaced : Location after (hash key) bid slot → IsPlaced hash after
  fill-IsPlaced place = record { sound = after-IsSound; held = after-IsHeld place }

-- The slot holds the same in both segments.
pub record SameSlot {K V : Type 0} (s s' : Segment K V) (bid slot : ℕ) : Type 0 where
  pub in_use_lem : in_use (s'.buckets bid).slots slot ≡ in_use (s.buckets bid).slots slot
  pub keys_lem : (s'.buckets bid).keys slot ≡ (s.buckets bid).keys slot
  pub values_lem : (s'.buckets bid).values slot ≡ (s.buckets bid).values slot

-- The segments agree in every slot but one.
abbrev pub AgreeBeside : {K V : Type 0} → Segment K V → Segment K V → SegmentPos → Type 0
AgreeBeside s s' pos =
    (i j : ℕ) → (pos.bucket_idx == i) && (pos.slot_idx == j) ≡ false → SameSlot s s' i j

module _ {K V : Type 0} (hash : K → ℕ) (s : Segment K V) (placed : IsPlaced hash s) (bid slot : ℕ)
    (key : K) (value : V) (probing : Bool) (count : ℕ) (inside : slot < num_slots)
    (free : in_use (s.buckets bid).slots slot ≡ false) where
  beside-SameSlot :
      (j : ℕ)
      → (slot == j) ≡ false
      → SameSlot s (after hash s placed bid slot key value probing count inside free) bid j
  beside-SameSlot j other =
      let e = here_lem hash s placed bid slot key value probing count inside free in
      record {
        in_use_lem =
            ap (λ b. in_use b.slots j) e
            ∙ in_use-filled (s.buckets bid) (placed.sound bid) slot key value
                (fingerprint (hash key)) probing inside free j
            ∙ rw other refl;
        keys_lem = ap (λ b. b.keys j) e ∙ update_other slot (some key) (s.buckets bid).keys j other;
        values_lem =
            ap (λ b. b.values j) e ∙ update_other slot (some value) (s.buckets bid).values j other;
      }

  pub fill-AgreeBeside :
      AgreeBeside s
        (after hash s placed bid slot key value probing count inside free)
        (record { bucket_idx = bid; slot_idx = slot })
  fill-AgreeBeside i j other = elim (Bool-cases (bid == i)) [
    | inl same ↦
        subst
          (λ x. SameSlot s (after hash s placed bid slot key value probing count inside free) x j)
          (==_equal bid i same) (beside-SameSlot j (rw same at other))
    | inr apart ↦
        let e =
          update_other bid (full_bucket hash s placed bid slot key value probing count inside free)
            s.buckets i apart in
        record {
          in_use_lem = ap (λ b. in_use b.slots j) e;
          keys_lem = ap (λ b. b.keys j) e;
          values_lem = ap (λ b. b.values j) e;
        }
  ]
