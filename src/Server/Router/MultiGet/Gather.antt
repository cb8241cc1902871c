-- ===== src/Server/Router/MultiGet/Gather.antt =====
-- The values that the parts of MGET put at their positions are those of the keys, in their order.
use shrikedb.Prelude.{
  ℕ, zero, suc, ◌+◌, ◌≡◌, ◌≤◌, ◌<◌, refl, Bool, true, false, ◌||◌, Bool-cases, inl, inr, Option,
  none, List, [], ◌∷◌, map, ◌==◌, if◌then◌else◌, length, set, replicate, arith,
}
use shrikedb.Std.Bytes.{Bytes}
use shrikedb.Facade.Resp.{as_bytes}
use shrikedb.Server.Context.Laws.{strings}
use shrikedb.Server.Sharding.{shard}
use shrikedb.Server.Sharding.Laws.{shard-lt}
use shrikedb.Server.Router.{Threads}
use shrikedb.Server.Router.Dispatch.Parts.{range, others, all_shards, keys_of, positions_of, fill}

pub fill-nothing : (ps : List ℕ) (rs : List (Option Bytes)) → fill ps [] rs ≡ rs
unfolding fill
fill-nothing [] rs = refl
fill-nothing (p ∷ ps) rs = refl

fill-suc :
    (ps : List ℕ) (vs rs : List (Option Bytes)) (r : Option Bytes)
    → fill (map suc ps) vs (r ∷ rs) ≡ r ∷ fill ps vs rs
unfolding fill
fill-suc [] vs rs r = refl
fill-suc (p ∷ ps) [] rs r = refl
fill-suc (p ∷ ps) (v ∷ vs) rs r = fill-suc ps vs (set rs p v) r

module _ (threads : Threads) where
  abbrev pub home : Bytes → ℕ
  home key = shard key threads.num_shards

  -- The keys of one shard.
  abbrev pub part : ℕ → List Bytes → List Bytes
  part sid [] = []
  part sid (k ∷ ks) = let rest = part sid ks in if home k == sid then k ∷ rest else rest

  pub length-part : (sid : ℕ) (ks : List Bytes) → length (part sid ks) ≤ length ks
  length-part sid [] = omega arith
  length-part sid (k ∷ ks) = ground (arith, length-part sid ks)

  pub keys_of-strings :
      (sid : ℕ) (ks : List Bytes) → keys_of threads sid (strings ks) ≡ strings (part sid ks)
  unfolding keys_of as_bytes
  keys_of-strings sid [] = refl
  keys_of-strings sid (k ∷ ks) = elim (Bool-cases (home k == sid)) [
    | inl e ↦ rw (keys_of, e, keys_of-strings sid ks) refl
    | inr e ↦ rw (keys_of, e, keys_of-strings sid ks) refl
  ]

  positions_of-suc :
      (sid i : ℕ) (ks : List Bytes)
      → positions_of threads sid (suc i) (strings ks)
        ≡ map suc (positions_of threads sid i (strings ks))
  unfolding positions_of as_bytes
  positions_of-suc sid i [] = refl
  positions_of-suc sid i (k ∷ ks) = elim (Bool-cases (home k == sid)) [
    | inl e ↦ rw (positions_of, e, positions_of-suc sid (suc i) ks) refl
    | inr e ↦ rw (positions_of, e, positions_of-suc sid (suc i) ks) refl
  ]

  -- The results after the part of one shard, whose values are those of `value`.
  abbrev pub filled :
      (ℕ → Bytes → Option Bytes) → ℕ → List Bytes → List (Option Bytes) → List (Option Bytes)
  filled value sid ks rs =
      fill (positions_of threads sid 0 (strings ks)) (map (value sid) (part sid ks)) rs

  module _ (value : ℕ → Bytes → Option Bytes) where
    filled-cons :
        (sid : ℕ) (k : Bytes) (ks : List Bytes) (r : Option Bytes) (rs : List (Option Bytes))
        → filled value sid (k ∷ ks) (r ∷ rs)
          ≡ (if home k == sid then value sid k else r) ∷ filled value sid ks rs
    unfolding positions_of fill as_bytes
    filled-cons sid k ks r rs = elim (Bool-cases (home k == sid)) [
      | inl e ↦
          rw (positions_of, e, positions_of-suc sid 0 ks, fill)
            (fill-suc (positions_of threads sid 0 (strings ks)) (map (value sid) (part sid ks)) rs
              (value sid k))
      | inr e ↦
          rw (positions_of, e, positions_of-suc sid 0 ks)
            (fill-suc (positions_of threads sid 0 (strings ks)) (map (value sid) (part sid ks)) rs
              r)
    ]

    -- After the parts of several shards.
    abbrev pub gathered : List ℕ → List Bytes → List (Option Bytes) → List (Option Bytes)
    gathered [] ks rs = rs
    gathered (sid ∷ sids) ks rs = gathered sids ks (filled value sid ks rs)

    abbrev picked : List ℕ → Bytes → Option Bytes → Option Bytes
    picked [] k r = r
    picked (sid ∷ sids) k r = picked sids k (if home k == sid then value sid k else r)

    gathered-cons :
        (sids : List ℕ) (k : Bytes) (ks : List Bytes) (r : Option Bytes) (rs : List (Option Bytes))
        → gathered sids (k ∷ ks) (r ∷ rs) ≡ picked sids k r ∷ gathered sids ks rs
    gathered-cons [] k ks r rs = refl
    gathered-cons (sid ∷ sids) k ks r rs =
        rw (filled-cons sid k ks r rs) (gathered-cons sids k ks _ (filled value sid ks rs))

    gathered-nil : (sids : List ℕ) → gathered sids [] [] ≡ []
    unfolding fill positions_of
    gathered-nil [] = refl
    gathered-nil (sid ∷ sids) = gathered-nil sids

    abbrev has : ℕ → List ℕ → Bool
    has i [] = false
    has i (sid ∷ sids) = (i == sid) || has i sids

    picked-kept : (sids : List ℕ) (k : Bytes) → picked sids k (value (home k) k) ≡ value (home k) k
    picked-kept [] k = refl
    picked-kept (sid ∷ sids) k = elim (Bool-cases (home k == sid)) [
      | inl e ↦ let same : sid ≡ home k = ground arith in rw (e, same) (picked-kept sids k)
      | inr e ↦ rw e (picked-kept sids k)
    ]

    picked-has :
        (sids : List ℕ) (k : Bytes) (r : Option Bytes)
        → has (home k) sids ≡ true
        → picked sids k r ≡ value (home k) k
    picked-has [] k r h = cc
    picked-has (sid ∷ sids) k r h = elim (Bool-cases (home k == sid)) [
      | inl e ↦ let same : sid ≡ home k = ground arith in rw (e, same) (picked-kept sids k)
      | inr e ↦ rw e (picked-has sids k r (ground arith))
    ]

    has-range : (i start n : ℕ) → start ≤ i → i < start + n → has i (range start n) ≡ true
    has-range i start zero h p = absurd (omega arith)
    has-range i start (suc n) h p = elim (Bool-cases (i == start)) [
      | inl e ↦ rw e refl
      | inr e ↦ rw e (has-range i (suc start) n (ground arith) (omega arith))
    ]

    has-others :
        (i : ℕ) (sids : List ℕ)
        → has i sids ≡ true
        → has i (threads.shard_id ∷ others threads sids) ≡ true
    has-others i [] h = cc
    has-others i (sid ∷ sids) h = ground (arith, has-others i sids)

    -- After the parts of all shards each key has its value.
    pub gathered-values :
        0 < threads.num_shards
        → (ks : List Bytes)
        → gathered (all_shards threads) ks (replicate (length ks) none)
          ≡ map (λ k. value (home k) k) ks
    gathered-values h [] = gathered-nil (all_shards threads)
    gathered-values h (k ∷ ks) =
        let everywhere = has-others (home k) (range 0 threads.num_shards) (
          has-range (home k) 0 threads.num_shards (omega arith)
            (omega (arith, shard-lt k threads.num_shards h))) in
        rw
          (
            gathered-cons (all_shards threads) k ks none (replicate (length ks) none),
            picked-has (all_shards threads) k none everywhere,
            gathered-values h ks,
          )
          refl
