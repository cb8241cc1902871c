-- ===== src/Server/Sharding.antt =====
-- sharding.rs: hash tags, CRC-32 and the shard of a key.
pub mod Laws
use Prim.Native.Nat.{bit_xor}
use mathlib.Core.List.{foldl}
use shrikedb.Prelude.{
  ℕ, zero, suc, ◌+◌, ◌-◌, ◌*◌, ◌/◌, ◌%◌, ◌^◌, ◌≡◌, refl, Bool, true, false, Option, none, some,
  List, [], ◌∷◌, ltb, ◌==◌, if◌then◌else◌, length, take, drop,
}
use shrikedb.Std.Bytes.{Bytes, codes}

-- `iter().position(|&b| b == c)`
unfoldable pub position : ℕ → Bytes → Option ℕ
position c [] = none
position c (b ∷ s) =
    if b == c then some 0 else elim (position c s) [ none ↦ none | some i ↦ some (suc i) ]

-- The bytes between the first `{` and the next `}`, or the whole key if there are none.
unfoldable pub hash_tag : Bytes → Bytes
unfolding position
hash_tag key = elim (position b'{' key) [
  | none ↦ key
  | some start ↦ elim (position b'}' (drop (start + 1) key)) [
    | none ↦ key
    | some end ↦ if ltb 0 end then take end (drop (start + 1) key) else key
  ]
]

-- One round of the inner loop.
crc_bit : ℕ → ℕ
crc_bit crc = if crc % 2 == 0 then crc / 2 else bit_xor (crc / 2) 0xEDB88320

crc_bits : ℕ → ℕ → ℕ
unfolding crc_bit
crc_bits zero crc = crc
crc_bits (suc n) crc = crc_bits n (crc_bit crc)

unfoldable pub crc_byte : ℕ → ℕ → ℕ
unfolding crc_bits
crc_byte crc byte = crc_bits 8 (bit_xor crc byte)

unfoldable pub crc32 : Bytes → ℕ
unfolding crc_byte
crc32 s = bit_xor (foldl crc_byte 0xFFFFFFFF s) 0xFFFFFFFF

-- The number of shards is at least 1.
unfoldable pub shard : Bytes → ℕ → ℕ
unfolding hash_tag crc32
shard key num_shards = crc32 (hash_tag key) % num_shards

-- The check value of this CRC-32.
crc32_check : crc32 (codes "123456789") ≡ 0xCBF43926
unfolding crc32
crc32_check = refl
