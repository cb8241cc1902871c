-- ===== src/Core/Dash/Segment/InsertStash.antt =====
-- `insert_new` when the item goes to a stash bucket and its home bucket gets a pointer.
use mathlib.Core.Path.{subst}
use shrikedb.Prelude.{
  ℕ, zero, suc, ◌+◌, ◌<◌, ◌≡◌, refl, ap, sym, ◌∙◌, true, false, some, arith, ◌==◌, Bool-cases, inl,
  inr,
}
use shrikedb.Core.Dash.SlotBitmap.{find_empty, is_full}
use shrikedb.Core.Dash.SlotBitmap.Laws.{in_use, is_probing}
use shrikedb.Core.Dash.SlotBitmap.Counted.{IsCounted, ==_equal, not_full-some}
use shrikedb.Core.Dash.Bucket.{Array, update, num_buckets, num_stash, filled, set_stash_ptr}
use shrikedb.Core.Dash.Bucket.Pointers.{
  Reaches, SameItems, set_stash_ptr-Reaches, set_stash_ptr-keeps, set_stash_ptr-SameItems,
}
use shrikedb.Core.Dash.Segment.{
  Segment, home_bucket, fingerprint, next_bucket, insert_new, insert_stash, inserted, insert_at,
  done, with_ptr,
}
use shrikedb.Core.Dash.Segment.Find.{in_stash}
use shrikedb.Core.Dash.Segment.Insert.{
  IsHeld, IsPlaced, Location-map, put_bucket, update_here, update_other, ==_self, fill-IsPlaced,
  fill-AgreeBeside, SameSlot,
}
use shrikedb.Core.Dash.Segment.InsertNew.{
  Outcome, stored, no_room, stored_at, insert_at-run, inside_free, stored-side, stored-taken,
  stored-keys, stored-values, home-Outcome, next-Outcome,
}

module _ {K V : Type 0} (hash : K → ℕ) (s : Segment K V) (home id fp : ℕ) where
  -- The segment with the pointer.
  abbrev pointed_at : Segment K V
  pointed_at = put_bucket home (set_stash_ptr id fp false (s.buckets home)) s.item_count s

  pointed-SameItems : (i : ℕ) → SameItems (s.buckets i) (pointed_at.buckets i)
  pointed-SameItems i = elim (Bool-cases (home == i)) [
    | inl same ↦
        rw (update_here home (set_stash_ptr id fp false (s.buckets home)) s.buckets i same) (
          subst (λ x. SameItems (s.buckets x) (set_stash_ptr id fp false (s.buckets home)))
            (==_equal home i same) (set_stash_ptr-SameItems id fp (s.buckets home)))
    | inr other ↦
        rw (update_other home (set_stash_ptr id fp false (s.buckets home)) s.buckets i other)
          (record { slots_lem = refl; keys_lem = refl; values_lem = refl; fingerprints_lem = refl })
  ]

  -- The pointer changes no slot.
  pointed-SameSlot : (i j : ℕ) (s' : Segment K V) → SameSlot pointed_at s' i j → SameSlot s s' i j
  pointed-SameSlot i j s' same =
      let before = pointed-SameItems i in
      record {
        in_use_lem = same.in_use_lem ∙ ap (λ w. in_use w j) before.slots_lem;
        keys_lem = same.keys_lem ∙ ap (λ f. f j) before.keys_lem;
        values_lem = same.values_lem ∙ ap (λ f. f j) before.values_lem;
      }

  module _ (few : (s.buckets home).overflow_count < 255) where
    pointed-Reaches :
        (i fp2 id2 : ℕ) → Reaches fp2 id2 (s.buckets i) → Reaches fp2 id2 (pointed_at.buckets i)
    pointed-Reaches i fp2 id2 r = elim (Bool-cases (home == i)) [
      | inl same ↦
          rw (update_here home (set_stash_ptr id fp false (s.buckets home)) s.buckets i same) (
            set_stash_ptr-keeps id fp (s.buckets home) few fp2 id2
              (subst (λ x. Reaches fp2 id2 (s.buckets x)) (sym (==_equal home i same)) r))
      | inr other ↦
          rw (update_other home (set_stash_ptr id fp false (s.buckets home)) s.buckets i other) r
    ]

    pointed-IsHeld : (i j : ℕ) → IsHeld hash s i j → IsHeld hash pointed_at i j
    pointed-IsHeld i j item =
        let same = pointed-SameItems i in
        record {
          key = item.key;
          value = item.value;
          keys_lem = ap (λ f. f j) same.keys_lem ∙ item.keys_lem;
          values_lem = ap (λ f. f j) same.values_lem ∙ item.values_lem;
          print = ap (λ f. f j) same.fingerprints_lem ∙ item.print;
          place =
              Location-map s pointed_at (hash item.key) pointed-Reaches
                (ap (λ w. is_probing w j) same.slots_lem) item.place;
        }

    pointed-IsPlaced : IsPlaced hash s → IsPlaced hash pointed_at
    pointed-IsPlaced placed = record {
      sound = λ i. record {
        words = λ j taken.
            (placed.sound i).words j
              (ap (λ w. in_use w j) (sym (pointed-SameItems i).slots_lem) ∙ taken);
        counted = subst IsCounted (sym (pointed-SameItems i).slots_lem) (placed.sound i).counted;
      };
      held = λ i j taken.
          pointed-IsHeld i j
            (placed.held i j (ap (λ w. in_use w j) (sym (pointed-SameItems i).slots_lem) ∙ taken));
    }

-- Changes of two different buckets commute.
module _ {A : Type 0} (h b : ℕ) (p f : A → A) (a : Array A) (apart : (h == b) ≡ false) where
  apart_too : (b == h) ≡ false
  apart_too = ground arith

  swap_at :
      (j : ℕ)
      → update h (p (update b (f (a b)) a h)) (update b (f (a b)) a) j
        ≡ update b (f (update h (p (a h)) a b)) (update h (p (a h)) a) j
  swap_at j =
      rw (update_other b (f (a b)) a h apart_too, update_other h (p (a h)) a b apart)
        (elim (Bool-cases (h == j)) [
          | inl at_h ↦
              let not_b : (b == j) ≡ false = ground arith in
              update_here h (p (a h)) (update b (f (a b)) a) j at_h
              ∙ sym (
                  update_other b (f (a b)) (update h (p (a h)) a) j not_b
                  ∙ update_here h (p (a h)) a j at_h)
          | inr not_h ↦
              update_other h (p (a h)) (update b (f (a b)) a) j not_h
              ∙ (elim (Bool-cases (b == j)) [
                | inl at_b ↦
                    update_here b (f (a b)) a j at_b
                    ∙ sym (update_here b (f (a b)) (update h (p (a h)) a) j at_b)
                | inr not_b ↦
                    update_other b (f (a b)) a j not_b
                    ∙ sym (
                        update_other b (f (a b)) (update h (p (a h)) a) j not_b
                        ∙ update_other h (p (a h)) a j not_h)
              ])
        ])

  swap_lem :
      update h (p (update b (f (a b)) a h)) (update b (f (a b)) a)
      ≡ update b (f (update h (p (a h)) a b)) (update h (p (a h)) a)
  swap_lem = λ i j. swap_at j i

home_bucket-lt : (h : ℕ) → home_bucket h < num_buckets
unfolding home_bucket
home_bucket-lt h = omega arith

module _ {K V : Type 0} (hash : K → ℕ) (key : K) (value : V) (s : Segment K V)
    (placed : IsPlaced hash s) where
  module _ (few : (s.buckets (home_bucket (hash key))).overflow_count < 255) where
    stash-Outcome :
        (id : ℕ)
        → id < num_stash
        → is_full (s.buckets (num_buckets + id)).slots ≡ false
        → Outcome hash s key value (
            done (
              with_ptr
                (home_bucket (hash key))
                id
                (fingerprint (hash key))
                (insert_at key value (fingerprint (hash key)) false (num_buckets + id) s)))
    stash-Outcome id below room =
        let home = home_bucket (hash key) in
        let fp = fingerprint (hash key) in
        let bid = num_buckets + id in
        let s2 = pointed_at hash s home id fp in
        let placed2 = pointed-IsPlaced hash s home id fp few placed in
        let apart : (home == bid) ≡ false = ground (arith, home_bucket-lt (hash key)) in
        let (slot, found) = not_full-some (s.buckets bid).slots (placed.sound bid).counted room in
        let found2 : find_empty (s2.buckets bid).slots ≡ some slot =
          ap find_empty (pointed-SameItems hash s home id fp bid).slots_lem ∙ found in
        let moved : (stored_at hash key value s2 false bid slot).buckets home
            ≡ set_stash_ptr id fp false (s.buckets home) =
          update_other bid (filled slot key value fp false (s2.buckets bid)) s2.buckets home (
            apart_too home bid (set_stash_ptr id fp false) (filled slot key value fp false)
              s.buckets apart)
          ∙ update_here home (set_stash_ptr id fp false (s.buckets home)) s.buckets home
              (==_self home) in
        let reach : Reaches fp id ((stored_at hash key value s2 false bid slot).buckets home) =
          subst (λ b. Reaches fp id b) (sym moved)
            (set_stash_ptr-Reaches id fp (s.buckets home) few below) in
        let place =
          in_stash id slot below (stored-side hash key value s2 placed2 false bid slot found2)
            reach in
        let free = inside_free hash key value s2 placed2 false bid slot found2 in
        let same : stored_at hash key value s2 false bid slot ≡ record s {
          buckets =
              update home
                (set_stash_ptr id fp false
                  ((stored_at hash key value s false bid slot).buckets home))
                (stored_at hash key value s false bid slot).buckets;
          item_count = s.item_count + 1;
        } =
          λ i. record s {
            buckets =
                sym
                  (swap_lem home bid (set_stash_ptr id fp false) (filled slot key value fp false)
                    s.buckets apart)
                  i;
            item_count = s.item_count + 1;
          } in
        rw (insert_at-run hash key value s false bid slot found) (
          subst
            (λ x.
              Outcome hash s key value
                (some (inserted x (record { bucket_idx = bid; slot_idx = slot }))))
            same
            (stored _ _
              (fill-IsPlaced hash s2 placed2 bid slot key value false (s.item_count + 1) free.0
                free.1 place)
              (ap (λ w. in_use w slot) (sym (pointed-SameItems hash s home id fp bid).slots_lem)
                ∙ free.1)
              (stored-taken hash key value s2 placed2 false bid slot found2)
              (stored-keys hash key value s2 placed2 false bid slot found2)
              (stored-values hash key value s2 placed2 false bid slot found2)
              (λ i j beside. pointed-SameSlot hash s home id fp i j _ (
                fill-AgreeBeside hash s2 placed2 bid slot key value false (s.item_count + 1) free.0
                  free.1 i j beside))
              refl))

    abbrev FullBelow : ℕ → Type 0
    FullBelow i = (id : ℕ) → id < i → is_full (s.buckets (num_buckets + id)).slots ≡ true

    next_FullBelow :
        (i : ℕ)
        → FullBelow i
        → is_full (s.buckets (num_buckets + i)).slots ≡ true
        → FullBelow (suc i)
    next_FullBelow i below full id h = elim (Bool-cases (i == id)) [
      | inl same ↦
          subst (λ x. is_full (s.buckets (num_buckets + x)).slots ≡ true) (==_equal i id same) full
      | inr other ↦ below id (ground arith)
    ]

    module _ (home_full : is_full (s.buckets (home_bucket (hash key))).slots ≡ true)
        (next_full : is_full (s.buckets (next_bucket (home_bucket (hash key)))).slots ≡ true) where
      insert_stash-Outcome :
          (n i : ℕ)
          → i + n ≡ num_stash
          → FullBelow i
          → Outcome hash s key value (insert_stash n i key value (hash key) s)
      unfolding insert_stash
      insert_stash-Outcome zero i h below = no_room (record {
        home_full = home_full;
        next_full = next_full;
        stash_full = λ id lt. below id (omega arith);
      })
      insert_stash-Outcome (suc n) i h below =
          elim (Bool-cases (is_full (s.buckets (num_buckets + i)).slots)) [
            | inl full ↦
                rw full (insert_stash-Outcome n (suc i) (omega arith) (next_FullBelow i below full))
            | inr room ↦ rw room (stash-Outcome i (omega arith) room)
          ]

    -- In a segment in order, whose home bucket for the key has counted fewer than 255 items without
    -- a pointer, `insert_new` does not panic: it puts the new item into a free slot, changes no
    -- other slot, counts one item more and leaves the segment in order; or the home bucket, the next
    -- one and the stash are full, and it says so.
    pub insert_new-Outcome : Outcome hash s key value (insert_new key value (hash key) s)
    unfolding insert_new
    insert_new-Outcome =
        let home = home_bucket (hash key) in
        elim (Bool-cases (is_full (s.buckets home).slots)) [
          | inr room ↦ rw (insert_new, room) (home-Outcome hash key value s placed room)
          | inl full ↦ elim (Bool-cases (is_full (s.buckets (next_bucket home)).slots)) [
            | inr room ↦ rw (insert_new, full, room) (next-Outcome hash key value s placed room)
            | inl next_full ↦
                rw (insert_new, full, next_full)
                  (insert_stash-Outcome full next_full num_stash 0 refl
                    (λ id h. absurd (omega arith)))
          ]
        ]
