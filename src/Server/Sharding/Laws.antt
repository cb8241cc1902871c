-- ===== src/Server/Sharding/Laws.antt =====
-- Keys with one hash tag share a shard.
use shrikedb.Prelude.{
  ℕ, ◌+◌, ◌<◌, ◌≡◌, ◌≢◌, refl, ap, none, some, [], ◌∷◌, ◌++◌, arith, length, take, drop,
}
use shrikedb.Std.Bytes.{Bytes}
use shrikedb.Server.Sharding.{position, hash_tag, shard}

pub position-append :
    (c : ℕ) (s t : Bytes) → position c s ≡ none → position c (s ++ (c ∷ t)) ≡ some (length s)
unfolding position
position-append c [] t h = ground arith
position-append c (b ∷ s) t h = ground (arith, position-append c s t)

drop-append_length : (s t : Bytes) (b : ℕ) → drop (length s + 1) (s ++ (b ∷ t)) ≡ t
drop-append_length [] t b = ground arith
drop-append_length (a ∷ s) t b = ground (arith, drop-append_length s t b)

take-append_length : (s t : Bytes) → take (length s) (s ++ t) ≡ s
take-append_length [] t = refl
take-append_length (a ∷ s) t = ap (λ u. a ∷ u) (take-append_length s t)

length-pos : (s : Bytes) → s ≢ [] → 0 < length s
length-pos [] full = absurd (full refl)
length-pos (a ∷ s) full = omega arith

-- The tag of a key is what stands between its first brace and the next closing one, if that is
-- not empty.
pub hash_tag-tagged :
    (before tag after : Bytes)
    → position b'{' before ≡ none
    → position b'}' tag ≡ none
    → tag ≢ []
    → hash_tag (before ++ (b'{' ∷ (tag ++ (b'}' ∷ after)))) ≡ tag
unfolding hash_tag
hash_tag-tagged before tag after h k full =
    rw
      (
        hash_tag,
        position-append b'{' before (tag ++ (b'}' ∷ after)) h,
        drop-append_length before (tag ++ (b'}' ∷ after)) b'{',
        position-append b'}' tag after k,
        drop-append_length before (tag ++ (b'}' ∷ after)) b'{',
        take-append_length tag (b'}' ∷ after),
      )
      (ground (arith, length-pos tag full))

-- The shard is one of the shards.
pub shard-lt : (key : Bytes) (n : ℕ) → 0 < n → shard key n < n
unfolding shard
shard-lt key n h = grind arith

-- Two keys with the same hash tag are on the same shard, whatever stands around the tag.
pub shard-tagged :
    (tag before after before' after' : Bytes) (n : ℕ)
    → tag ≢ []
    → position b'}' tag ≡ none
    → position b'{' before ≡ none
    → position b'{' before' ≡ none
    → shard (before ++ (b'{' ∷ (tag ++ (b'}' ∷ after)))) n
      ≡ shard (before' ++ (b'{' ∷ (tag ++ (b'}' ∷ after')))) n
unfolding shard
shard-tagged tag before after before' after' n full k h h' =
    rw (hash_tag-tagged before tag after h k full, hash_tag-tagged before' tag after' h' k full)
