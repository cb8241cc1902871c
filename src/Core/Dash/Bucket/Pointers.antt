-- ===== src/Core/Dash/Bucket/Pointers.antt =====
-- The stash pointers of a bucket: `set_stash_ptr` adds a way to a stash bucket and keeps the others.
use shrikedb.Prelude.{
  ℕ, zero, suc, ◌+◌, ◌*◌, ◌%◌, ◌<◌, ◌≡◌, refl, ap, sym, ◌∙◌, ◌⊎◌, Bool, true, false, not, ◌&&◌,
  none, some, arith, ◌==◌, if◌then◌else◌, Bool-cases, Option-cases, inl, inr,
}
use shrikedb.Core.Dash.Bits.{test_bit, set_bit, clear_bit, test_bit-set_bit, test_bit-clear_bit}
use shrikedb.Core.Dash.SlotBitmap.Laws.{none-some, some-injective}
use shrikedb.Core.Dash.SlotBitmap.Counted.{==_equal}
use shrikedb.Core.Dash.Bucket.{
  Bucket, update, num_stash, first, put_bit, bit_value, stash_id, set_stash_id, set_stash_ptr,
  has_stash, has_stash_overflow,
}

-- The pointer `i` of a bucket is in use, for its own items, with this fingerprint and stash bucket.
abbrev pub points : {K V : Type 0} → ℕ → ℕ → Bucket K V → ℕ → Bool
points fp id b i =
    test_bit i b.stash_busy
    && (b.stash_fps i == fp)
    && not (test_bit i b.stash_probe_mask)
    && (stash_id i b.stash_pos == id)

-- From this home bucket, `find` gets to the stash bucket `id` for this fingerprint: some item was
-- left without a pointer, so that all stash buckets are scanned, or a pointer leads there.
pub record Reaches {K V : Type 0} (fp id : ℕ) (b : Bucket K V) : Type 0 where
  pub flag : has_stash b ≡ true
  pub way : (has_stash_overflow b ≡ true) ⊎ ((i : ℕ) × (i < num_stash) × (points fp id b i ≡ true))

first_sound : (n i k : ℕ) (p : ℕ → Bool) → first n i p ≡ some k → (p k ≡ true) × (k < i + n)
unfolding first
first_sound zero i k p h = absurd (none-some k h)
first_sound (suc n) i k p h = elim (Bool-cases (p i)) [
  | inl here ↦
      let same : i ≡ k = some-injective (rw here at h) in (ap p (sym same) ∙ here, omega arith)
  | inr not_here ↦
      let (holds, below) = first_sound n (suc i) k p (rw not_here at h) in (holds, omega arith)
]

test_bit-put_bit :
    (i j w : ℕ) (b : Bool) → test_bit j (put_bit i b w) ≡ (if i == j then b else test_bit j w)
test_bit-put_bit i j w true = test_bit-set_bit i j w
test_bit-put_bit i j w false = test_bit-clear_bit i j w

stash_id-set_other :
    (i p id pos : ℕ) → (i == p) ≡ false → stash_id p (set_stash_id i id pos) ≡ stash_id p pos
unfolding stash_id set_stash_id
stash_id-set_other i p id pos other =
    let high = put_bit (i * 2 + 1) (test_bit 1 id) pos in
    let low_ne : (i * 2 == p * 2) ≡ false = ground arith in
    let low_ne2 : (i * 2 + 1 == p * 2) ≡ false = ground arith in
    let high_ne : (i * 2 == p * 2 + 1) ≡ false = ground arith in
    let high_ne2 : (i * 2 + 1 == p * 2 + 1) ≡ false = ground arith in
    rw
      (
        test_bit-put_bit (i * 2) (p * 2) high (test_bit 0 id),
        test_bit-put_bit (i * 2) (p * 2 + 1) high (test_bit 0 id),
        low_ne,
        high_ne,
        test_bit-put_bit (i * 2 + 1) (p * 2) pos (test_bit 1 id),
        test_bit-put_bit (i * 2 + 1) (p * 2 + 1) pos (test_bit 1 id),
        low_ne2,
        high_ne2,
      )
      refl

id_bits : (id : ℕ) → id < num_stash → bit_value (test_bit 0 id) + 2 * bit_value (test_bit 1 id) ≡ id
unfolding test_bit
id_bits zero h = refl
id_bits (suc zero) h = refl
id_bits (suc (suc zero)) h = refl
id_bits (suc (suc (suc zero))) h = refl
id_bits (suc (suc (suc (suc id)))) h = absurd (omega arith)

stash_id-set_here : (i id pos : ℕ) → id < num_stash → stash_id i (set_stash_id i id pos) ≡ id
unfolding stash_id set_stash_id
stash_id-set_here i id pos h =
    let high = put_bit (i * 2 + 1) (test_bit 1 id) pos in
    let low_eq : (i * 2 == i * 2) ≡ true = ground arith in
    let high_ne : (i * 2 == i * 2 + 1) ≡ false = ground arith in
    let high_eq : (i * 2 + 1 == i * 2 + 1) ≡ true = ground arith in
    rw
      (
        test_bit-put_bit (i * 2) (i * 2) high (test_bit 0 id),
        test_bit-put_bit (i * 2) (i * 2 + 1) high (test_bit 0 id),
        low_eq,
        high_ne,
        test_bit-put_bit (i * 2 + 1) (i * 2 + 1) pos (test_bit 1 id),
        high_eq,
      )
      (id_bits id h)

set_here : (i w : ℕ) → test_bit i (set_bit i w) ≡ true
set_here i w = ground (arith, test_bit-set_bit i i w)

module _ {K V : Type 0} (id fp : ℕ) (b : Bucket K V) where
  is_free : ℕ → Bool
  is_free i = not (test_bit i b.stash_busy)

  -- The bucket after the pointer `i` is written, and after an item is counted as overflow.
  abbrev pointed : ℕ → Bucket K V
  pointed i = record b {
    stash_fps = update i fp b.stash_fps;
    stash_pos = set_stash_id i id b.stash_pos;
    stash_busy = set_bit 4 (set_bit i b.stash_busy);
    stash_probe_mask = clear_bit i b.stash_probe_mask;
  }

  abbrev overflowed : Bucket K V
  overflowed = record b {
    overflow_count = (b.overflow_count + 1) % 256;
    stash_busy = set_bit 4 b.stash_busy;
  }

  set_stash_ptr-pointed :
      (i : ℕ) → first num_stash 0 is_free ≡ some i → set_stash_ptr id fp false b ≡ pointed i
  unfolding set_stash_ptr is_free
  set_stash_ptr-pointed i h = rw (set_stash_ptr, h) refl

  set_stash_ptr-overflowed :
      first num_stash 0 is_free ≡ none → set_stash_ptr id fp false b ≡ overflowed
  unfolding set_stash_ptr is_free
  set_stash_ptr-overflowed h = rw (set_stash_ptr, h) refl

  busy-pointed :
      (i p : ℕ)
      → p < num_stash
      → test_bit p b.stash_busy ≡ true
      → test_bit p (pointed i).stash_busy ≡ true
  busy-pointed i p below used =
      ground
        (arith, test_bit-set_bit 4 p (set_bit i b.stash_busy), test_bit-set_bit i p b.stash_busy)

  points-pointed :
      (i p fp2 id2 : ℕ)
      → test_bit i b.stash_busy ≡ false
      → p < num_stash
      → points fp2 id2 b p ≡ true
      → points fp2 id2 (pointed i) p ≡ true
  unfolding update
  points-pointed i p fp2 id2 free below leads =
      let used : test_bit p b.stash_busy ≡ true = ground arith in
      elim (Bool-cases (i == p)) [
        | inl same ↦ let equal = ap (λ x. test_bit x b.stash_busy) (==_equal i p same) in cc
        | inr other ↦
            rw (busy-pointed i p below used, other, stash_id-set_other i p id b.stash_pos other)
              (ground (arith, test_bit-clear_bit i p b.stash_probe_mask))
      ]

  points-new : (i : ℕ) → i < num_stash → id < num_stash → points fp id (pointed i) i ≡ true
  unfolding update
  points-new i inside below = rw (stash_id-set_here i id b.stash_pos below) (
      ground (
        arith,
        test_bit-set_bit 4 i (set_bit i b.stash_busy),
        test_bit-set_bit i i b.stash_busy,
        test_bit-clear_bit i i b.stash_probe_mask,
      ))

  module _ (few : b.overflow_count < 255) where
    overflow-stays : has_stash_overflow b ≡ true → has_stash_overflow overflowed ≡ true
    unfolding has_stash_overflow
    overflow-stays h = ground arith

    overflow-new : has_stash_overflow overflowed ≡ true
    unfolding has_stash_overflow
    overflow-new = ground arith

    -- The new pointer, or the overflow scan, leads to the new item.
    pub set_stash_ptr-Reaches : id < num_stash → Reaches fp id (set_stash_ptr id fp false b)
    set_stash_ptr-Reaches below = elim (Option-cases (first num_stash 0 is_free)) [
      | inl full ↦
          rw (set_stash_ptr-overflowed full)
            (record { flag = unfold has_stash in set_here 4 b.stash_busy; way = inl overflow-new })
      | inr (i, found) ↦ rw (set_stash_ptr-pointed i found) (record {
        flag = unfold has_stash in set_here 4 (set_bit i b.stash_busy);
        way = inr (
          i,
          (first_sound num_stash 0 i is_free found).1,
          points-new i (first_sound num_stash 0 i is_free found).1 below,
        );
      })
    ]

    -- What `find` got to before, it gets to still.
    pub set_stash_ptr-keeps :
        (fp2 id2 : ℕ) → Reaches fp2 id2 b → Reaches fp2 id2 (set_stash_ptr id fp false b)
    set_stash_ptr-keeps fp2 id2 r = elim (Option-cases (first num_stash 0 is_free)) [
      | inl full ↦
          rw (set_stash_ptr-overflowed full)
            (record { flag = unfold has_stash in set_here 4 b.stash_busy; way = inl overflow-new })
      | inr (i, found) ↦
          let free : not (test_bit i b.stash_busy) ≡ true =
            unfold is_free in (first_sound num_stash 0 i is_free found).0 in
          rw (set_stash_ptr-pointed i found) (record {
            flag = unfold has_stash in set_here 4 (set_bit i b.stash_busy);
            way = elim r.way [
              | inl over ↦ inl (unfold has_stash_overflow in over)
              | inr (p, below, leads) ↦
                  inr (p, below, points-pointed i p fp2 id2 (ground arith) below leads)
            ];
          })
    ]

-- A pointer does not touch the items.
pub record SameItems {K V : Type 0} (b b' : Bucket K V) : Type 0 where
  pub slots_lem : b'.slots ≡ b.slots
  pub keys_lem : b'.keys ≡ b.keys
  pub values_lem : b'.values ≡ b.values
  pub fingerprints_lem : b'.fingerprints ≡ b.fingerprints

pub set_stash_ptr-SameItems :
    {K V : Type 0} (id fp : ℕ) (b : Bucket K V) → SameItems b (set_stash_ptr id fp false b)
set_stash_ptr-SameItems id fp b = elim (Option-cases (first num_stash 0 (is_free id fp b))) [
  | inl full ↦
      rw (set_stash_ptr-overflowed id fp b full)
        (record { slots_lem = refl; keys_lem = refl; values_lem = refl; fingerprints_lem = refl })
  | inr (i, found) ↦
      rw (set_stash_ptr-pointed id fp b i found)
        (record { slots_lem = refl; keys_lem = refl; values_lem = refl; fingerprints_lem = refl })
]
