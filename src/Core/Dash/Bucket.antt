-- ===== src/Core/Dash/Bucket.antt =====
-- `Bucket` of bucket.rs. An array of fixed length is a function of the index: the code indexes its
-- arrays only within their lengths. A slot that is not initialised is `none`.
pub mod Laws
pub mod Pointers
use shrikedb.Prelude.{
  ℕ, zero, suc, ◌+◌, ◌-◌, ◌*◌, ◌/◌, ◌%◌, Bool, true, false, not, ◌&&◌, Option, none, some, List, [],
  ◌∷◌, ◌==◌, ltb, if◌then◌else◌,
}
use shrikedb.Core.Dash.Bits.{test_bit, set_bit, clear_bit, trailing_zeros}
use shrikedb.Core.Dash.SlotBitmap.{
  SlotBitmap, num_slots, busy, probe_mask, find_empty, set_slot, clear_slot,
}

abbrev pub num_buckets : ℕ
num_buckets = 64

abbrev pub num_stash : ℕ
num_stash = 4

abbrev pub Array : Type 0 → Type 0
Array A = ℕ → A

unfoldable pub update : {A : Type 0} → ℕ → A → Array A → Array A
update i x a j = if i == j then x else a j

pub record Bucket (K V : Type 0) : Type 0 where
  pub slots : SlotBitmap
  pub fingerprints : Array ℕ
  pub stash_fps : Array ℕ
  pub stash_busy : ℕ
  pub stash_pos : ℕ
  pub stash_probe_mask : ℕ
  pub overflow_count : ℕ
  pub keys : Array (Option K)
  pub values : Array (Option V)

-- The first index from `i` on, of `n`, with the property.
unfoldable pub first : ℕ → ℕ → (ℕ → Bool) → Option ℕ
first zero i p = none
first (suc n) i p = let rest = first n (suc i) p in if p i then some i else rest

-- `w | 1 << i` or `w & !(1 << i)`.
abbrev pub put_bit : ℕ → Bool → ℕ → ℕ
put_bit i b w = if b then set_bit i w else clear_bit i w

abbrev pub bit_value : Bool → ℕ
bit_value b = if b then 1 else 0

-- The two bits of `stash_pos` for the pointer `i`: `(pos >> (i * 2)) & 3`, and the write of them.
unfoldable pub stash_id : ℕ → ℕ → ℕ
stash_id i pos = bit_value (test_bit (i * 2) pos) + 2 * bit_value (test_bit (i * 2 + 1) pos)

unfoldable pub set_stash_id : ℕ → ℕ → ℕ → ℕ
set_stash_id i id pos = put_bit (i * 2) (test_bit 0 id) (put_bit (i * 2 + 1) (test_bit 1 id) pos)

-- The slots that the loop `while mask != 0 { slot = mask.trailing_zeros(); ...; mask &= mask - 1 }`
-- visits, in order. A mask has at most 32 bits.
unfoldable pub mask_slots : ℕ → ℕ → List ℕ
mask_slots zero mask = []
mask_slots (suc rounds) mask =
    let slot = trailing_zeros 32 mask in
    let rest = mask_slots rounds (clear_bit slot mask) in if mask == 0 then [] else slot ∷ rest

-- The has-stash flag goes when no pointer is in use and nothing is counted as overflow.
abbrev flag_after : ℕ → ℕ → ℕ
flag_after overflow busy_ptrs =
    if (busy_ptrs % 16 == 0) && (overflow == 0) then clear_bit 4 busy_ptrs else busy_ptrs

module _ {K V : Type 0} where
  abbrev pub new_bucket : Bucket K V
  new_bucket = record {
    slots = 0;
    fingerprints = λ i. 0;
    stash_fps = λ i. 0;
    stash_busy = 0;
    stash_pos = 0;
    stash_probe_mask = 0;
    overflow_count = 0;
    keys = λ i. none;
    values = λ i. none;
  }

  -- The condition of `find_matching` for the slot `i`.
  abbrev pub matches : ℕ → Bool → Bucket K V → ℕ → Bool
  matches fp probe b i =
      test_bit i (busy b.slots) && test_bit i (probe_mask probe b.slots) && (b.fingerprints i == fp)

  -- The mask after `n` rounds of the loop.
  unfoldable pub match_mask : ℕ → ℕ → Bool → Bucket K V → ℕ
  match_mask zero fp probe b = 0
  match_mask (suc n) fp probe b =
      let mask = match_mask n fp probe b in if matches fp probe b n then set_bit n mask else mask

  unfoldable pub find_matching : ℕ → Bool → Bucket K V → ℕ
  unfolding match_mask
  find_matching fp probe b = match_mask num_slots fp probe b

  abbrev pub filled : ℕ → K → V → ℕ → Bool → Bucket K V → Bucket K V
  filled slot key value fp probing b = record b {
    slots = set_slot slot probing b.slots;
    fingerprints = update slot fp b.fingerprints;
    keys = update slot (some key) b.keys;
    values = update slot (some value) b.values;
  }

  unfoldable pub try_insert : K → V → ℕ → Bool → Bucket K V → Option (Bucket K V × ℕ)
  try_insert key value fp probing b = elim (find_empty b.slots) [
    | none ↦ none
    | some slot ↦ some (filled slot key value fp probing b, slot)
  ]

  unfoldable pub delete : ℕ → Bucket K V → Bucket K V × Option K × Option V
  delete slot b = (
    record b {
      slots = clear_slot slot b.slots;
      keys = update slot none b.keys;
      values = update slot none b.values;
    },
    b.keys slot,
    b.values slot,
  )

  unfoldable pub has_stash : Bucket K V → Bool
  has_stash b = test_bit 4 b.stash_busy

  unfoldable pub has_stash_overflow : Bucket K V → Bool
  has_stash_overflow b = ltb 0 b.overflow_count

  unfoldable pub set_stash_ptr : ℕ → ℕ → Bool → Bucket K V → Bucket K V
  unfolding first set_stash_id
  set_stash_ptr id fp is_probing b = elim (first num_stash 0 (λ i. not (test_bit i b.stash_busy))) [
    | some i ↦ record b {
      stash_fps = update i fp b.stash_fps;
      stash_pos = set_stash_id i id b.stash_pos;
      stash_busy = set_bit 4 (set_bit i b.stash_busy);
      stash_probe_mask = put_bit i is_probing b.stash_probe_mask;
    }
    | none ↦ record b {
      overflow_count = (b.overflow_count + 1) % 256;
      stash_busy = set_bit 4 b.stash_busy;
    }
  ]

  unfoldable pub unset_stash_ptr : ℕ → ℕ → Bucket K V → Bucket K V × Bool
  unfolding first stash_id
  unset_stash_ptr fp id b =
      let points : ℕ → Bool =
        λ i. test_bit i b.stash_busy && (b.stash_fps i == fp) && (stash_id i b.stash_pos == id) in
      elim (first num_stash 0 points) [
        | some i ↦
            (record b { stash_busy = flag_after b.overflow_count (clear_bit i b.stash_busy) }, true)
        | none ↦ elim b.overflow_count [
          | zero ↦ (b, false)
          | suc n ↦ (record b { overflow_count = n; stash_busy = flag_after n b.stash_busy }, true)
        ]
      ]
