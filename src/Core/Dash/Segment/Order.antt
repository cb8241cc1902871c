-- ===== src/Core/Dash/Segment/Order.antt =====
-- A segment in order: the empty one, and `find` against the items of a segment in order.
use mathlib.Core.Path.{subst}
use shrikedb.Prelude.{
  ℕ, zero, suc, ◌+◌, ◌≡◌, refl, sym, ◌∙◌, ◌⊎◌, Bool, true, false, not, ◌&&◌, Option, none, some,
  arith, ◌==◌, if◌then◌else◌, Bool-cases, inl, inr,
}
use shrikedb.Core.Dash.Bits.{test_bit, test_bit-zero}
use shrikedb.Core.Dash.SlotBitmap.{busy}
use shrikedb.Core.Dash.SlotBitmap.Laws.{in_use, none-some, some-injective}
use shrikedb.Core.Dash.SlotBitmap.Counted.{empty-IsCounted}
use shrikedb.Core.Dash.Bucket.{
  Bucket, num_buckets, num_stash, mask_slots, has_stash, has_stash_overflow, stash_id,
}
use shrikedb.Core.Dash.Segment.{
  Segment, SegmentPos, new_segment, home_bucket, fingerprint, next_bucket, at_slot, or_else, key_is,
  first_slot, find_in_bucket, find_overflow, follow_ptr, follow_ptrs, find_in_stash_via_ptrs,
  find_stash, find,
}
use shrikedb.Core.Dash.Segment.Visit.{first_slot_sound}
use shrikedb.Core.Dash.Segment.Find.{Finds, find_complete, find_in_bucket_sound, busy-IsWithin}
use shrikedb.Core.Dash.Segment.Insert.{IsPlaced}

-- The key at a position passes the test.
abbrev pub IsFound : {K V : Type 0} → (K → Bool) → Segment K V → SegmentPos → Type 0
IsFound eq s pos = key_is eq (s.buckets pos.bucket_idx) pos.slot_idx ≡ true

or_else_cases :
    {A : Type 0} (a b : Option A) (x : A) → or_else a b ≡ some x → (a ≡ some x) ⊎ (b ≡ some x)
or_else_cases none b x e = inr e
or_else_cases (some a) b x e = inl e

at_slot-IsFound :
    {K V : Type 0} (eq : K → Bool) (s : Segment K V) (bid : ℕ) (o : Option ℕ) (pos : SegmentPos)
    → ((slot : ℕ) → o ≡ some slot → key_is eq (s.buckets bid) slot ≡ true)
    → at_slot bid o ≡ some pos
    → IsFound eq s pos
at_slot-IsFound eq s bid none pos h e = cc
at_slot-IsFound eq s bid (some slot) pos h e = subst (IsFound eq s) (some-injective e) (h slot refl)

here_key :
    {K V : Type 0} (eq : K → Bool) (fp : ℕ) (b : Bucket K V) (slot : ℕ)
    → (b.fingerprints slot == fp) && key_is eq b slot ≡ true
    → key_is eq b slot ≡ true
here_key eq fp b slot h = ground arith

module _ {K V : Type 0} (hash : K → ℕ) (s : Segment K V) (placed : IsPlaced hash s) (eq : K → Bool)
    (fp : ℕ) where
  bucket-IsFound :
      (probe : Bool) (bid : ℕ) (pos : SegmentPos)
      → at_slot bid (find_in_bucket eq fp probe (s.buckets bid)) ≡ some pos
      → IsFound eq s pos
  bucket-IsFound probe bid pos e =
      at_slot-IsFound eq s bid _ pos
        (λ slot f. (find_in_bucket_sound eq fp probe (s.buckets bid) slot f).0) e

  find_overflow-IsFound :
      (n i : ℕ) (pos : SegmentPos) → find_overflow n i eq fp s ≡ some pos → IsFound eq s pos
  unfolding find_overflow
  find_overflow-IsFound zero i pos e = absurd (none-some pos e)
  find_overflow-IsFound (suc n) i pos e = elim (or_else_cases _ _ pos e) [
    | inl here ↦ bucket-IsFound false (num_buckets + i) pos here
    | inr later ↦ find_overflow-IsFound n (suc i) pos later
  ]

  follow_ptr-IsFound :
      (i : ℕ) (probe : Bool) (b : Bucket K V) (pos : SegmentPos)
      → follow_ptr i eq fp probe b s ≡ some pos
      → IsFound eq s pos
  unfolding follow_ptr
  follow_ptr-IsFound i probe b pos e =
      let stash = s.buckets (num_buckets + stash_id i b.stash_pos) in
      let goes =
        test_bit i b.stash_busy
        && (b.stash_fps i == fp)
        && (if probe then test_bit i b.stash_probe_mask else not (test_bit i b.stash_probe_mask)) in
      let here : ℕ → Bool = λ slot. (stash.fingerprints slot == fp) && key_is eq stash slot in
      elim (Bool-cases goes) [
        | inl go ↦
            at_slot-IsFound eq s (num_buckets + stash_id i b.stash_pos)
              (first_slot here (mask_slots 32 (busy stash.slots))) pos
              (λ slot f.
                here_key eq fp stash slot
                  (first_slot_sound here 32 0 (busy stash.slots) slot
                    (busy-IsWithin eq 0 s (λ bid. (placed.sound bid).words)
                      (num_buckets + stash_id i b.stash_pos))
                    (omega arith) f).0)
              (rw go at e)
        | inr stop ↦ absurd (none-some pos (rw stop at e))
      ]

  follow_ptrs-IsFound :
      (n i : ℕ) (probe : Bool) (b : Bucket K V) (pos : SegmentPos)
      → follow_ptrs n i eq fp probe b s ≡ some pos
      → IsFound eq s pos
  unfolding follow_ptrs
  follow_ptrs-IsFound zero i probe b pos e = absurd (none-some pos e)
  follow_ptrs-IsFound (suc n) i probe b pos e = elim (or_else_cases _ _ pos e) [
    | inl here ↦ follow_ptr-IsFound i probe b pos here
    | inr later ↦ follow_ptrs-IsFound n (suc i) probe b pos later
  ]

module _ {K V : Type 0} (hash : K → ℕ) (s : Segment K V) (eq : K → Bool)
    (placed : IsPlaced hash s) where
  find_stash-IsFound : (h : ℕ) (pos : SegmentPos) → find_stash h eq s ≡ some pos → IsFound eq s pos
  unfolding find_stash find_in_stash_via_ptrs
  find_stash-IsFound h pos e =
      let home = home_bucket h in
      let fp = fingerprint h in
      elim (Bool-cases (has_stash (s.buckets home))) [
        | inr flat ↦ absurd (none-some pos (rw flat at e))
        | inl flag ↦ elim (Bool-cases (has_stash_overflow (s.buckets home))) [
          | inl over ↦
              find_overflow-IsFound hash s placed eq fp num_stash 0 pos (rw (flag, over) at e)
          | inr exact ↦
              elim (or_else_cases (follow_ptrs num_stash 0 eq fp false (s.buckets home) s)
                (follow_ptrs num_stash 0 eq fp true (s.buckets (next_bucket home)) s) pos
                (rw (flag, exact) at e)) [
                  | inl own ↦
                      follow_ptrs-IsFound hash s placed eq fp num_stash 0 false (s.buckets home) pos
                        own
                  | inr other ↦
                      follow_ptrs-IsFound hash s placed eq fp num_stash 0 true
                        (s.buckets (next_bucket home)) pos other
                ]
        ]
      ]

  find_sound : (h : ℕ) (pos : SegmentPos) → find h eq s ≡ some pos → IsFound eq s pos
  unfolding find
  find_sound h pos e = elim (or_else_cases _ _ pos e) [
    | inl home ↦ bucket-IsFound hash s placed eq (fingerprint h) false (home_bucket h) pos home
    | inr past_home ↦ elim (or_else_cases _ _ pos past_home) [
      | inl next ↦
          bucket-IsFound hash s placed eq (fingerprint h) true (next_bucket (home_bucket h)) pos
            next
      | inr stash ↦ find_stash-IsFound h pos stash
    ]
  ]

  held-Finds :
      (bid slot : ℕ) (k : K)
      → in_use (s.buckets bid).slots slot ≡ true
      → (s.buckets bid).keys slot ≡ some k
      → eq k ≡ true
      → Finds (find (hash k) eq s)
  held-Finds bid slot k taken stored same =
      let item = placed.held bid slot taken in
      let key_eq : item.key ≡ k = some-injective (sym item.keys_lem ∙ stored) in
      subst (λ x. Finds (find (hash x) eq s)) key_eq
        (find_complete eq (hash item.key) s (λ b. (placed.sound b).words)
          (record {
            inside = (placed.sound bid).words slot taken;
            taken = taken;
            print = item.print;
            same = rw (key_is, stored) same;
          })
          item.place)

  -- In a segment in order, `find` returns only positions whose key passes the test, and it returns
  -- one for the hash of every key that the segment holds and that passes the test.
  pub find-IsPlaced :
      ((h : ℕ) (pos : SegmentPos) → find h eq s ≡ some pos → IsFound eq s pos)
      × ((bid slot : ℕ) (k : K)
          → in_use (s.buckets bid).slots slot ≡ true
          → (s.buckets bid).keys slot ≡ some k
          → eq k ≡ true
          → Finds (find (hash k) eq s))
  find-IsPlaced = (find_sound, held-Finds)

-- The empty segment is in order.
in_use-empty : (i : ℕ) → in_use 0 i ≡ false
in_use-empty i = test_bit-zero (18 + i)

not_empty : {A : Type 0} (i : ℕ) → in_use 0 i ≡ true → A
not_empty i taken = let none_used = in_use-empty i in cc

pub new_segment-IsPlaced :
    {K V : Type 0} (hash : K → ℕ) (depth : ℕ) → IsPlaced {K = K} {V = V} hash (new_segment depth)
new_segment-IsPlaced hash depth = record {
  sound = λ bid. record { words = λ i taken. not_empty i taken; counted = empty-IsCounted };
  held = λ bid slot taken. not_empty slot taken;
}
