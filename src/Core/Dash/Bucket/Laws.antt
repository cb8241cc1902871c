-- ===== src/Core/Dash/Bucket/Laws.antt =====
-- Lookup by fingerprint and insertion in one bucket.
use shrikedb.Prelude.{
  ℕ, zero, suc, ◌<◌, ◌≡◌, refl, ap, ◌∙◌, Bool, not, ◌&&◌, arith, ◌==◌, ltb, if◌then◌else◌,
  Bool-cases, inl, inr,
}
use shrikedb.Core.Dash.Bits.{test_bit, set_bit, test_bit-set_bit, test_bit-zero}
use shrikedb.Core.Dash.SlotBitmap.{num_slots}
use shrikedb.Core.Dash.SlotBitmap.Counted.{==_equal}
use shrikedb.Core.Dash.SlotBitmap.Laws.{in_use, is_probing, test_bit-busy, test_bit-probe_mask}
use shrikedb.Core.Dash.Bucket.{Bucket, matches, match_mask, find_matching}

-- What `find_matching` looks for.
abbrev pub is_candidate : {K V : Type 0} → ℕ → Bool → Bucket K V → ℕ → Bool
is_candidate fp probe b i =
    in_use b.slots i
    && (if probe then is_probing b.slots i else not (is_probing b.slots i))
    && (b.fingerprints i == fp)

-- One more round of a loop that sets the bits of the indices with a property.
next_round :
    (f : ℕ → Bool) (n j w : ℕ)
    → test_bit j w ≡ ltb j n && f j
    → test_bit j (if f n then set_bit n w else w) ≡ ltb j (suc n) && f j
next_round f n j w h = elim (Bool-cases (n == j)) [
  | inl same ↦
      let here : f n ≡ f j = ap f (==_equal n j same) in
      rw here (ground (arith, test_bit-set_bit n j w))
  | inr other ↦ ground (arith, test_bit-set_bit n j w)
]

module _ {K V : Type 0} (fp : ℕ) (probe : Bool) (b : Bucket K V) where
  matches_lem : (i : ℕ) → i < num_slots → matches fp probe b i ≡ is_candidate fp probe b i
  matches_lem i h = rw (test_bit-busy i b.slots, test_bit-probe_mask i b.slots probe h) refl

  test_bit-match_mask :
      (n j : ℕ) → test_bit j (match_mask n fp probe b) ≡ ltb j n && matches fp probe b j
  unfolding match_mask
  test_bit-match_mask zero j = ground (arith, test_bit-zero j)
  test_bit-match_mask (suc n) j =
      next_round (matches fp probe b) n j (match_mask n fp probe b) (test_bit-match_mask n j)

  -- The mask of `find_matching` has exactly the slots in use with the fingerprint and the ownership
  -- asked for.
  pub test_bit-find_matching :
      (j : ℕ) → test_bit j (find_matching fp probe b) ≡ ltb j num_slots && is_candidate fp probe b j
  unfolding find_matching
  test_bit-find_matching j = elim (Bool-cases (ltb j num_slots)) [
    | inl inside ↦
        test_bit-match_mask num_slots j
        ∙ ap (λ x. ltb j num_slots && x) (matches_lem j (ground arith))
    | inr outside ↦ test_bit-match_mask num_slots j ∙ rw outside refl
  ]
