-- ===== src/Core/Dash/Segment/Find.antt =====
-- `find` of segment.rs finds a key wherever the segment may hold it.
use mathlib.Core.Path.{subst}
use shrikedb.Prelude.{
  ℕ, zero, suc, ◌+◌, ◌≤◌, ◌<◌, ◌≡◌, refl, sym, ◌∙◌, ◌⊎◌, Bool, true, false, ◌&&◌, Option, none,
  some, arith, ◌==◌, Bool-cases, inl, inr,
}
use shrikedb.Core.Dash.Bits.{test_bit}
use shrikedb.Core.Dash.SlotBitmap.{num_slots, busy}
use shrikedb.Core.Dash.SlotBitmap.Laws.{in_use, is_probing, test_bit-busy, none-some}
use shrikedb.Core.Dash.SlotBitmap.Counted.{==_equal}
use shrikedb.Core.Dash.Bucket.{
  Bucket, num_buckets, num_stash, mask_slots, find_matching, has_stash_overflow, stash_id,
}
use shrikedb.Core.Dash.Bucket.Laws.{is_candidate, test_bit-find_matching}
use shrikedb.Core.Dash.Bucket.Pointers.{points, Reaches}
use shrikedb.Core.Dash.Segment.{
  Segment, SegmentPos, home_bucket, fingerprint, next_bucket, at_slot, or_else, key_is, first_slot,
  find_in_bucket, find_overflow, follow_ptr, follow_ptrs, find_in_stash_via_ptrs, find_stash, find,
}
use shrikedb.Core.Dash.Segment.Visit.{IsWithin, first_slot_complete, first_slot_sound}

-- A search that finds something.
abbrev pub Finds : {A : Type 0} → Option A → Type 0
Finds {A} o = (a : A) × (o ≡ some a)

or_else-Finds : {A : Type 0} (a b : Option A) → Finds a ⊎ Finds b → Finds (or_else a b)
or_else-Finds none b (inl (x, e)) = cc
or_else-Finds none b (inr f) = f
or_else-Finds (some a) b f = (a, refl)

at_slot-Finds : (bid : ℕ) (o : Option ℕ) → Finds o → Finds (at_slot bid o)
at_slot-Finds bid none (x, e) = absurd (none-some x e)
at_slot-Finds bid (some slot) f = (record { bucket_idx = bid; slot_idx = slot }, refl)

module _ {K V : Type 0} (eq : K → Bool) (fp : ℕ) (probe : Bool) (b : Bucket K V) where
  matching-IsWithin : IsWithin 0 32 (find_matching fp probe b)
  matching-IsWithin i set = ground (arith, test_bit-find_matching fp probe b i)

  pub find_in_bucket_complete :
      (j : ℕ)
      → j < num_slots
      → is_candidate fp probe b j ≡ true
      → key_is eq b j ≡ true
      → Finds (find_in_bucket eq fp probe b)
  unfolding find_in_bucket
  find_in_bucket_complete j inside fits same =
      first_slot_complete (key_is eq b) 32 0 (find_matching fp probe b) j matching-IsWithin
        (omega arith) (ground (arith, test_bit-find_matching fp probe b j)) same

  pub find_in_bucket_sound :
      (j : ℕ)
      → find_in_bucket eq fp probe b ≡ some j
      → (key_is eq b j ≡ true) × (j < num_slots) × (is_candidate fp probe b j ≡ true)
  unfolding find_in_bucket
  find_in_bucket_sound j h =
      let (same, set) =
        first_slot_sound (key_is eq b) 32 0 (find_matching fp probe b) j matching-IsWithin
          (omega arith) h in
      let both = sym (test_bit-find_matching fp probe b j) ∙ set in
      (same, ground arith, ground arith)

-- The places for a key with this hash.
pub data Location {K V : Type 0} (s : Segment K V) (hash : ℕ) : ℕ → ℕ → Type 0 where
  at_home :
      (slot : ℕ)
      → is_probing (s.buckets (home_bucket hash)).slots slot ≡ false
      → Location s hash (home_bucket hash) slot
  at_next :
      (slot : ℕ)
      → is_probing (s.buckets (next_bucket (home_bucket hash))).slots slot ≡ true
      → Location s hash (next_bucket (home_bucket hash)) slot
  in_stash :
      (id slot : ℕ)
      → id < num_stash
      → is_probing (s.buckets (num_buckets + id)).slots slot ≡ false
      → Reaches (fingerprint hash) id (s.buckets (home_bucket hash))
      → Location s hash (num_buckets + id) slot

module _ {K V : Type 0} (eq : K → Bool) (hash : ℕ) (s : Segment K V) where
  -- An item of the bucket `bid` that the search is for.
  pub record Target (bid slot : ℕ) : Type 0 where
    pub inside : slot < num_slots
    pub taken : in_use (s.buckets bid).slots slot ≡ true
    pub print : (s.buckets bid).fingerprints slot ≡ fingerprint hash
    pub same : key_is eq (s.buckets bid) slot ≡ true

  Target-Finds :
      (probe : Bool) (bid slot : ℕ)
      → Target bid slot
      → is_probing (s.buckets bid).slots slot ≡ probe
      → Finds (find_in_bucket eq (fingerprint hash) probe (s.buckets bid))
  Target-Finds true bid slot t side =
      find_in_bucket_complete eq (fingerprint hash) true (s.buckets bid) slot t.inside
        (ground (arith, t.taken, t.print)) t.same
  Target-Finds false bid slot t side =
      find_in_bucket_complete eq (fingerprint hash) false (s.buckets bid) slot t.inside
        (ground (arith, t.taken, t.print)) t.same

  find_overflow-Finds :
      (n i id slot : ℕ)
      → i ≤ id
      → id < i + n
      → Target (num_buckets + id) slot
      → is_probing (s.buckets (num_buckets + id)).slots slot ≡ false
      → Finds (find_overflow n i eq (fingerprint hash) s)
  unfolding find_overflow
  find_overflow-Finds zero i id slot h k t side = absurd (omega arith)
  find_overflow-Finds (suc n) i id slot h k t side = elim (Bool-cases (i == id)) [
    | inl same ↦ or_else-Finds _ _ (
        inl (
          subst
            (λ x. Finds (
              at_slot (num_buckets + x)
                (find_in_bucket eq (fingerprint hash) false (s.buckets (num_buckets + x)))))
            (sym (==_equal i id same))
            (at_slot-Finds _ _ (Target-Finds false (num_buckets + id) slot t side))))
    | inr other ↦
        or_else-Finds _ _
          (inr (find_overflow-Finds n (suc i) id slot (ground arith) (omega arith) t side))
  ]

  -- The search of one stash bucket that a pointer leads to.
  abbrev stash_search : ℕ → Option SegmentPos
  stash_search id = at_slot (num_buckets + id) (
      first_slot
        (λ slot.
          ((s.buckets (num_buckets + id)).fingerprints slot == fingerprint hash)
          && key_is eq (s.buckets (num_buckets + id)) slot)
        (mask_slots 32 (busy (s.buckets (num_buckets + id)).slots)))

  module _ (words : (bid i : ℕ) → in_use (s.buckets bid).slots i ≡ true → i < num_slots) where
    pub busy-IsWithin : (bid : ℕ) → IsWithin 0 32 (busy (s.buckets bid).slots)
    busy-IsWithin bid i set =
        let below = words bid i (sym (test_bit-busy i (s.buckets bid).slots) ∙ set) in
        (omega arith, omega arith)

    stash_search-Finds : (id slot : ℕ) → Target (num_buckets + id) slot → Finds (stash_search id)
    stash_search-Finds id slot t = at_slot-Finds _ _ (
        first_slot_complete _ 32 0 (busy (s.buckets (num_buckets + id)).slots) slot
          (busy-IsWithin (num_buckets + id)) (omega arith)
          (test_bit-busy slot (s.buckets (num_buckets + id)).slots ∙ t.taken)
          (ground (arith, t.print, t.same)))

    follow_ptr-Finds :
        (p id slot : ℕ) (b : Bucket K V)
        → points (fingerprint hash) id b p ≡ true
        → Target (num_buckets + id) slot
        → Finds (follow_ptr p eq (fingerprint hash) false b s)
    unfolding follow_ptr
    follow_ptr-Finds p id slot b leads t =
        let used : test_bit p b.stash_busy ≡ true = ground arith in
        let print : (b.stash_fps p == fingerprint hash) ≡ true = ground arith in
        let own : test_bit p b.stash_probe_mask ≡ false = ground arith in
        let to : id ≡ stash_id p b.stash_pos = ground arith in
        rw (used, print, own)
          (subst (λ x. Finds (stash_search x)) to (stash_search-Finds id slot t))

    follow_ptrs-Finds :
        (n i p id slot : ℕ) (b : Bucket K V)
        → i ≤ p
        → p < i + n
        → points (fingerprint hash) id b p ≡ true
        → Target (num_buckets + id) slot
        → Finds (follow_ptrs n i eq (fingerprint hash) false b s)
    unfolding follow_ptrs
    follow_ptrs-Finds zero i p id slot b h k leads t = absurd (omega arith)
    follow_ptrs-Finds (suc n) i p id slot b h k leads t = elim (Bool-cases (i == p)) [
      | inl same ↦ or_else-Finds _ _ (
          inl (
            subst (λ x. Finds (follow_ptr x eq (fingerprint hash) false b s))
              (sym (==_equal i p same)) (follow_ptr-Finds p id slot b leads t)))
      | inr other ↦
          or_else-Finds _ _
            (inr (follow_ptrs-Finds n (suc i) p id slot b (ground arith) (omega arith) leads t))
    ]

    find_stash-Finds :
        (id slot : ℕ)
        → id < num_stash
        → Target (num_buckets + id) slot
        → is_probing (s.buckets (num_buckets + id)).slots slot ≡ false
        → Reaches (fingerprint hash) id (s.buckets (home_bucket hash))
        → Finds (find_stash hash eq s)
    unfolding find_stash find_in_stash_via_ptrs
    find_stash-Finds id slot below t side r =
        elim (Bool-cases (has_stash_overflow (s.buckets (home_bucket hash)))) [
          | inl over ↦
              rw (find_stash, r.flag, over)
                (find_overflow-Finds num_stash 0 id slot (omega arith) (omega arith) t side)
          | inr no_over ↦ elim r.way [
            | inl over ↦ cc
            | inr (p, inside, leads) ↦
                rw (find_stash, r.flag, no_over)
                  (or_else-Finds
                    (find_in_stash_via_ptrs (home_bucket hash) eq (fingerprint hash) false s)
                    (find_in_stash_via_ptrs (next_bucket (home_bucket hash)) eq (fingerprint hash)
                      true s)
                    (inl (
                      follow_ptrs-Finds num_stash 0 p id slot (s.buckets (home_bucket hash))
                        (omega arith) (omega arith) leads t)))
          ]
        ]

    -- `find` finds an item in each of the places where the segment may hold it.
    pub find_complete :
        {bid slot : ℕ} → Target bid slot → Location s hash bid slot → Finds (find hash eq s)
    unfolding find
    find_complete t (at_home slot side) =
        or_else-Finds _ _
          (inl (at_slot-Finds _ _ (Target-Finds false (home_bucket hash) slot t side)))
    find_complete t (at_next slot side) = or_else-Finds _ _ (
        inr (
          or_else-Finds _ _ (
            inl (
              at_slot-Finds _ _ (Target-Finds true (next_bucket (home_bucket hash)) slot t side)))))
    find_complete t (in_stash id slot below side r) =
        or_else-Finds _ _ (inr (or_else-Finds _ _ (inr (find_stash-Finds id slot below t side r))))
