-- ===== src/Core/Dash/Segment/Calls.antt =====
-- `iter` of segment.rs calls back for the items of the segment.
use mathlib.Core.List.{append-nil}
use shrikedb.Prelude.{
  ℕ, zero, suc, ◌+◌, ◌≡◌, ◌≤◌, ◌<◌, refl, ap, sym, ◌∙◌, true, false, ◌&&◌, Bool-cases, inl, inr,
  List, [], ◌∷◌, ◌++◌, map, ◌==◌, if◌then◌else◌, arith,
}
use shrikedb.Core.Dash.Bits.{test_bit, clear_bit, trailing_zeros, test_bit-clear_bit, nonzero-bit}
use shrikedb.Core.Dash.SlotBitmap.{busy}
use shrikedb.Core.Dash.SlotBitmap.Laws.{in_use, test_bit-busy}
use shrikedb.Core.Dash.SlotBitmap.Counted.{==_equal}
use shrikedb.Core.Dash.Bucket.{Bucket, mask_slots}
use shrikedb.Core.Dash.Segment.{Segment}
use shrikedb.Core.Dash.Segment.Visit.{IsWithin, lowest_lem, rest-IsWithin, empty-bit}
use shrikedb.Core.Dash.Segment.Insert.{IsPlaced, ==_self}
use shrikedb.Core.Dash.Segment.Split.{Call, call, total_buckets, bucket_calls, calls_from, iter}

module _ {K V : Type 0} (bid slot : ℕ) where
  -- The calls for one slot.
  abbrev pub calls_at : List (Call K V) → List (Call K V)
  calls_at [] = []
  calls_at (c ∷ cs) =
      let rest = calls_at cs in if (c.0 == bid) && (c.1 == slot) then c ∷ rest else rest

  calls_at-append : (cs ds : List (Call K V)) → calls_at (cs ++ ds) ≡ calls_at cs ++ calls_at ds
  calls_at-append [] ds = refl
  calls_at-append (c ∷ cs) ds = elim (Bool-cases ((c.0 == bid) && (c.1 == slot))) [
    | inl e ↦ rw (e, calls_at-append cs ds) refl
    | inr e ↦ rw (e, calls_at-append cs ds) refl
  ]

  calls_at-other :
      (other : ℕ) (b : Bucket K V) (slots : List ℕ)
      → (other == bid) ≡ false
      → calls_at (map (call other b) slots) ≡ []
  calls_at-other other b [] differ = refl
  calls_at-other other b (i ∷ slots) differ = rw (differ, calls_at-other other b slots differ) refl

  calls_at-mask :
      (b : Bucket K V) (n lo mask : ℕ)
      → IsWithin lo n mask
      → lo + n ≤ 32
      → calls_at (map (call bid b) (mask_slots n mask))
        ≡ (if test_bit slot mask then call bid b slot ∷ [] else [])
  unfolding mask_slots
  calls_at-mask b zero lo mask within bound = elim (Bool-cases (test_bit slot mask)) [
    | inl set ↦ absurd (omega (arith, (within slot set).0, (within slot set).1))
    | inr clear ↦ rw clear refl
  ]
  calls_at-mask b (suc n) lo mask within bound =
      let first = trailing_zeros 32 mask in
      let rest =
        calls_at-mask b n (suc lo) (clear_bit first mask) (rest-IsWithin lo n mask within bound)
          (omega arith) in
      elim (Bool-cases (mask == 0)) [
        | inl empty ↦ rw (empty, empty-bit slot mask empty) refl
        | inr nonempty ↦ elim (Bool-cases (first == slot)) [
          | inl here ↦
              let same : first ≡ slot = ==_equal first slot here in
              let (i, some_set) = nonzero-bit mask (λ e. ground arith) in
              let set : test_bit slot mask ≡ true =
                ap (λ i. test_bit i mask) (sym same)
                ∙ (lowest_lem lo n mask within bound i some_set).0 in
              let gone : test_bit slot (clear_bit first mask) ≡ false =
                test_bit-clear_bit first slot mask ∙ rw here refl in
              rw (nonempty, ==_self bid, here, rest, gone, set) (ap (λ i. call bid b i ∷ []) same)
          | inr other ↦
              let kept : test_bit slot (clear_bit first mask) ≡ test_bit slot mask =
                test_bit-clear_bit first slot mask ∙ rw other refl in
              rw (nonempty, ==_self bid, other, rest, kept) refl
        ]
      ]

  calls_at-bucket :
      (s : Segment K V)
      → IsWithin 0 32 (busy (s.buckets bid).slots)
      → calls_at (bucket_calls bid (s.buckets bid))
        ≡ (if in_use (s.buckets bid).slots slot then call bid (s.buckets bid) slot ∷ [] else [])
  unfolding bucket_calls
  calls_at-bucket s within =
      rw
        (
          calls_at-mask (s.buckets bid) 32 0 (busy (s.buckets bid).slots) within (omega arith),
          test_bit-busy slot (s.buckets bid).slots,
        )
        refl

  calls_at-before :
      (n from : ℕ) (s : Segment K V) → bid < from → calls_at (calls_from n from s) ≡ []
  unfolding calls_from bucket_calls
  calls_at-before zero from s h = refl
  calls_at-before (suc n) from s h =
      let differ : (from == bid) ≡ false = ground arith in
      rw
        (
          calls_at-append,
          calls_at-other from (s.buckets from) (mask_slots 32 (busy (s.buckets from).slots)) differ,
          calls_at-before n (suc from) s (omega arith),
        )
        refl

  calls_at-from :
      (n from : ℕ) (s : Segment K V)
      → IsWithin 0 32 (busy (s.buckets bid).slots)
      → from ≤ bid
      → bid < from + n
      → calls_at (calls_from n from s)
        ≡ (if in_use (s.buckets bid).slots slot then call bid (s.buckets bid) slot ∷ [] else [])
  unfolding calls_from bucket_calls
  calls_at-from zero from s within least most = absurd (omega arith)
  calls_at-from (suc n) from s within least most = elim (Bool-cases (from == bid)) [
    | inl here ↦
        let same : from ≡ bid = ==_equal from bid here in
        rw
          (
            same,
            calls_at-append,
            calls_at-bucket s within,
            calls_at-before n (suc bid) s (omega arith),
          )
          (append-nil _)
    | inr other ↦
        rw
          (
            calls_at-append,
            calls_at-other from (s.buckets from) (mask_slots 32 (busy (s.buckets from).slots))
                other,
          )
          (calls_at-from n (suc from) s within (ground arith) (omega arith))
  ]

-- In a segment in order, `iter` calls back once for each slot of its 68 buckets that holds an item,
-- with the key and the value of the slot, and for no slot that holds none.
pub iter_lem :
    {K V : Type 0} (hash : K → ℕ) (s : Segment K V)
    → IsPlaced hash s
    → (bid slot : ℕ) → bid < total_buckets
    → calls_at bid slot (iter s)
      ≡ (if in_use (s.buckets bid).slots slot then call bid (s.buckets bid) slot ∷ [] else [])
unfolding iter
iter_lem hash s placed bid slot h =
    calls_at-from bid slot total_buckets 0 s
      (λ i set.
        let below =
          (placed.sound bid).words i (sym (test_bit-busy i (s.buckets bid).slots) ∙ set) in
        (omega arith, omega arith))
      (omega arith) (omega arith)
