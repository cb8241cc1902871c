-- ===== src/Persistence/Format/Laws.antt =====
-- The bytes of machine integers, read back, and the range of the CRC-64.
use Prim.Native.Nat.{bit_xor, bit_xor-bitwise, differ, digits}
use native.Mathlib.Nat.{mod-eq_of_lt, mod-lt}
use mathlib.Core.List.{foldl, reverse_aux, reverse-reverse}
use shrikedb.Prelude.{
  ℕ, zero, suc, ◌+◌, ◌*◌, ◌/◌, ◌%◌, ◌^◌, ◌≡◌, ◌<◌, refl, true, List, [], ◌∷◌, ◌==◌, Bool-cases, inl,
  inr, arith, length,
}
use shrikedb.Prelude.Int.{ℤ, pos, negsuc}
use shrikedb.Std.Bytes.{Bytes}
use shrikedb.Persistence.Save.{fits}
use shrikedb.Persistence.Format.{
  crc_round, crc_rounds, crc64_table, crc64_byte, crc64, le_bytes, from_le, be_bytes, from_be,
  as_word, signed,
}

pub from_le-le_bytes : (n v : ℕ) → v < 256 ^ n → from_le (le_bytes n v) ≡ v
unfolding le_bytes from_le
from_le-le_bytes zero v h = omega arith
from_le-le_bytes (suc n) v h = omega (arith, from_le-le_bytes n (v / 256) (omega arith))

length-reverse_aux :
    {A : Type 0} (s acc : List A) → length (reverse_aux s acc) ≡ length s + length acc
length-reverse_aux [] acc = omega arith
length-reverse_aux (x ∷ s) acc = omega (arith, length-reverse_aux s (x ∷ acc))

pub from_be-be_bytes : (n v : ℕ) → v < 256 ^ n → from_be (be_bytes n v) ≡ v
unfolding be_bytes from_be
from_be-be_bytes n v h = rw (reverse-reverse (le_bytes n v)) (from_le-le_bytes n v h)

pub length-le_bytes : (n v : ℕ) → length (le_bytes n v) ≡ n
unfolding le_bytes
length-le_bytes zero v = refl
length-le_bytes (suc n) v = omega (arith, length-le_bytes n (v / 256))

pub length-be_bytes : (n v : ℕ) → length (be_bytes n v) ≡ n
unfolding be_bytes
length-be_bytes n v = rw (length-reverse_aux (le_bytes n v) []) (omega (arith, length-le_bytes n v))

differ-lt : (x y : ℕ) → x < 2 → y < 2 → differ x y < 2
differ-lt zero y hx hy = hy
differ-lt (suc zero) zero hx hy = hx
differ-lt (suc zero) (suc y) hx hy = omega arith
differ-lt (suc (suc x)) y hx hy = absurd (omega arith)

digits-lt : (k n a b : ℕ) → a < 2 ^ k → b < 2 ^ k → digits (λ b. b) differ n a b < 2 ^ k
digits-lt k zero a b ha hb = hb
digits-lt k (suc n) zero b ha hb = hb
digits-lt zero (suc n) (suc a) b ha hb = absurd (omega arith)
digits-lt (suc k) (suc n) (suc a) b ha hb = omega (
  arith,
  digits-lt k n (suc a / 2) (b / 2) (omega arith) (omega arith),
  differ-lt (suc a % 2) (b % 2) (omega arith) (omega arith),
)

pub bit_xor-lt : (k a b : ℕ) → a < 2 ^ k → b < 2 ^ k → bit_xor a b < 2 ^ k
bit_xor-lt k a b ha hb = rw (bit_xor-bitwise a b) (digits-lt k a a b ha hb)

crc_round-lt : (crc : ℕ) → crc < 2 ^ 64 → crc_round crc < 2 ^ 64
unfolding crc_round
crc_round-lt crc h = elim (Bool-cases (crc % 2 == 0)) [
  | inl even ↦ rw (even) (omega arith)
  | inr odd ↦ rw (odd) (bit_xor-lt 64 (crc / 2) 0xad93d23594c935a9 (omega arith) (omega arith))
]

crc_rounds-lt : (n crc : ℕ) → crc < 2 ^ 64 → crc_rounds n crc < 2 ^ 64
unfolding crc_rounds
crc_rounds-lt zero crc h = h
crc_rounds-lt (suc n) crc h = crc_rounds-lt n (crc_round crc) (crc_round-lt crc h)

crc64_byte-lt : (c b : ℕ) → c < 2 ^ 64 → crc64_byte c b < 2 ^ 64
unfolding crc64_byte crc64_table
crc64_byte-lt c b h =
    bit_xor-lt 64 (crc_rounds 8 (bit_xor (c % 256) b % 256)) (c / 256)
      (crc_rounds-lt 8 (bit_xor (c % 256) b % 256) (omega arith)) (omega arith)

foldl-lt : (s : Bytes) (c : ℕ) → c < 2 ^ 64 → foldl crc64_byte c s < 2 ^ 64
foldl-lt [] c h = h
foldl-lt (b ∷ s) c h = foldl-lt s (crc64_byte c b) (crc64_byte-lt c b h)

-- The checksum is a u64.
pub crc64-lt : (c : ℕ) (s : Bytes) → c < 2 ^ 64 → crc64 c s < 2 ^ 64
unfolding crc64
crc64-lt c s h =
    bit_xor-lt 64 (foldl crc64_byte (bit_xor c 0xFFFFFFFFFFFFFFFF) s) 0xFFFFFFFFFFFFFFFF
      (foldl-lt s (bit_xor c 0xFFFFFFFFFFFFFFFF)
        (bit_xor-lt 64 c 0xFFFFFFFFFFFFFFFF h (omega arith)))
      (omega arith)

pub as_word-lt : (modulus : ℕ) (z : ℤ) → 0 < modulus → as_word modulus z < modulus
unfolding as_word
as_word-lt modulus (pos n) h = mod-lt n h
as_word-lt modulus (negsuc n) h = omega arith

-- A number that fits the signed type is itself after a round through the word.
pub signed-as_word :
    (h : ℕ) (z : ℤ) → fits h z ≡ true → signed (2 * suc h) (as_word (2 * suc h) z) ≡ z
unfolding signed as_word
signed-as_word h (pos v) e = rw (mod-eq_of_lt {n = v} {m = 2 * suc h} (ground arith)) (ground arith)
signed-as_word h (negsuc v) e =
    rw (mod-eq_of_lt {n = v} {m = 2 * suc h} (ground arith)) (ground arith)
