-- ===== src/Persistence/Format.antt =====
-- rdb_format.rs: the opcodes and CRC-64; and the bytes of machine integers (`to_le_bytes`, ...).
pub mod Laws
use Prim.Native.Nat.{bit_xor}
use mathlib.Core.List.{foldl, reverse}
use shrikedb.Prelude.{
  ℕ, zero, suc, ◌+◌, ◌-◌, ◌*◌, ◌/◌, ◌%◌, ◌≡◌, refl, [], ◌∷◌, ltb, ◌==◌, if◌then◌else◌,
}
use shrikedb.Prelude.Int.{ℤ, pos, negsuc}
use shrikedb.Std.Bytes.{Bytes, codes}

abbrev pub type_string : ℕ
type_string = 0

-- The opcodes from 244 on: slot info, function 2, function and module aux are refused.
abbrev pub opcode_slot_info : ℕ
opcode_slot_info = 244

abbrev pub opcode_module_aux : ℕ
opcode_module_aux = 247

abbrev pub opcode_idle : ℕ
opcode_idle = 248

abbrev pub opcode_freq : ℕ
opcode_freq = 249

abbrev pub opcode_aux : ℕ
opcode_aux = 250

abbrev pub opcode_resizedb : ℕ
opcode_resizedb = 251

abbrev pub opcode_expiretime_ms : ℕ
opcode_expiretime_ms = 252

abbrev pub opcode_expiretime : ℕ
opcode_expiretime = 253

abbrev pub opcode_selectdb : ℕ
opcode_selectdb = 254

abbrev pub opcode_eof : ℕ
opcode_eof = 255

-- One round of the inner loop of the table.
unfoldable crc_round : ℕ → ℕ
crc_round crc = if crc % 2 == 0 then crc / 2 else bit_xor (crc / 2) 0xad93d23594c935a9

unfoldable crc_rounds : ℕ → ℕ → ℕ
unfolding crc_round
crc_rounds zero crc = crc
crc_rounds (suc n) crc = crc_rounds n (crc_round crc)

-- `CRC64_TABLE[i]`
unfoldable crc64_table : ℕ → ℕ
unfolding crc_rounds
crc64_table i = crc_rounds 8 i

unfoldable crc64_byte : ℕ → ℕ → ℕ
unfolding crc64_table
crc64_byte c byte = bit_xor (crc64_table (bit_xor (c % 256) byte % 256)) (c / 256)

unfoldable pub crc64 : ℕ → Bytes → ℕ
unfolding crc64_byte
crc64 crc s = bit_xor (foldl crc64_byte (bit_xor crc 0xFFFFFFFFFFFFFFFF) s) 0xFFFFFFFFFFFFFFFF

crc64_digits : crc64 0 (codes "123456789") ≡ 0xbcc3979205a2f95
unfolding crc64
crc64_digits = refl

-- `to_le_bytes` and `from_le_bytes` of an integer of `n` bytes, and the same from the other end.
unfoldable pub le_bytes : ℕ → ℕ → Bytes
le_bytes zero v = []
le_bytes (suc n) v = v % 256 ∷ le_bytes n (v / 256)

unfoldable pub from_le : Bytes → ℕ
from_le [] = 0
from_le (b ∷ s) = b + 256 * from_le s

unfoldable pub be_bytes : ℕ → ℕ → Bytes
unfolding le_bytes
be_bytes n v = reverse (le_bytes n v)

unfoldable pub from_be : Bytes → ℕ
unfolding from_le
from_be s = from_le (reverse s)

-- A signed integer as a word below `modulus`, and back.
unfoldable pub as_word : ℕ → ℤ → ℕ
as_word modulus (pos n) = n % modulus
as_word modulus (negsuc n) = modulus - 1 - n % modulus

unfoldable pub signed : ℕ → ℕ → ℤ
signed modulus w = if ltb w (modulus / 2) then pos w else negsuc (modulus - 1 - w)
