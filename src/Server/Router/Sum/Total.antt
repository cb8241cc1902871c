-- ===== src/Server/Router/Sum/Total.antt =====
-- The counts of the shards' parts of the keys add up to the count of all keys.
use shrikedb.Prelude.{
  ℕ, zero, suc, ◌+◌, ◌≡◌, ◌≤◌, ◌<◌, refl, ap, ◌∙◌, Bool, ◌&&◌, Bool-cases, inl, inr, List, [], ◌∷◌,
  ◌==◌, leb, ltb, if◌then◌else◌, length, arith,
}
use shrikedb.Std.Bytes.{Bytes}
use shrikedb.Server.Commands.Generic.Exists.{hits}
use shrikedb.Server.Sharding.Laws.{shard-lt}
use shrikedb.Server.Router.{Threads}
use shrikedb.Server.Router.Dispatch.Parts.{range, others, all_shards}
use shrikedb.Server.Router.MultiGet.Gather.{home, part}

pub hits_bound : (p : Bytes → Bool) (ks : List Bytes) → hits p ks ≤ length ks
hits_bound p [] = omega arith
hits_bound p (k ∷ ks) = ground (arith, hits_bound p ks)

-- How often a number stands in a list.
abbrev times : ℕ → List ℕ → ℕ
times i [] = 0
times i (sid ∷ sids) = let rest = times i sids in if i == sid then 1 + rest else rest

times-range :
    (i start n : ℕ) → times i (range start n) ≡ (if leb start i && ltb i (start + n) then 1 else 0)
times-range i start zero = ground arith
times-range i start (suc n) = ground (arith, times-range i (suc start) n)

module _ (threads : Threads) where
  times-others :
      (i : ℕ) (sids : List ℕ)
      → times i (others threads sids) ≡ (if i == threads.shard_id then 0 else times i sids)
  times-others i [] = ground arith
  times-others i (sid ∷ sids) = elim (Bool-cases (sid == threads.shard_id)) [
    | inl e ↦ rw e (times-others i sids ∙ ground arith)
    | inr e ↦ rw (e, times-others i sids) (ground arith)
  ]

  times-all_shards :
      (i : ℕ)
      → i < threads.num_shards
      → threads.shard_id < threads.num_shards
      → times i (all_shards threads) ≡ 1
  times-all_shards i h own =
      rw (times-others i (range 0 threads.num_shards), times-range i 0 threads.num_shards)
        (ground arith)

  module _ (seen : ℕ → Bytes → Bool) where
    -- The sum of the counts of the shards of a list.
    abbrev pub total : List ℕ → List Bytes → ℕ
    total [] ks = 0
    total (sid ∷ sids) ks = hits (seen sid) (part threads sid ks) + total sids ks

    total-nil : (sids : List ℕ) → total sids [] ≡ 0
    total-nil [] = refl
    total-nil (sid ∷ sids) = omega (arith, total-nil sids)

    total-cons :
        (sids : List ℕ) (k : Bytes) (ks : List Bytes)
        → total sids (k ∷ ks)
          ≡ (if seen (home threads k) k then times (home threads k) sids else 0) + total sids ks
    total-cons [] k ks = ground arith
    total-cons (sid ∷ sids) k ks = elim (Bool-cases (home threads k == sid)) [
      | inl e ↦
          let same : sid ≡ home threads k = ground arith in
          let seen_same : seen sid k ≡ seen (home threads k) k = ap (λ i. seen i k) same in
          rw (e, seen_same, total-cons sids k ks) (ground arith)
      | inr e ↦ rw (e, total-cons sids k ks) (ground arith)
    ]

    pub total-all_shards :
        threads.shard_id < threads.num_shards
        → (ks : List Bytes) → total (all_shards threads) ks ≡ hits (λ k. seen (home threads k) k) ks
    total-all_shards own [] = total-nil (all_shards threads)
    total-all_shards own (k ∷ ks) =
        total-cons (all_shards threads) k ks
        ∙ rw
            (
              times-all_shards (home threads k) (shard-lt k threads.num_shards (omega arith)) own,
              total-all_shards own ks,
            )
            (ground arith)
