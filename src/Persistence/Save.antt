-- ===== src/Persistence/Save.antt =====
-- rdb_save.rs, and `save_rdb` of snapshot.rs. A method is the list of the slices that it gives to
-- `write_bytes`, in their order; `write_all` is what the saver does with them.
use mathlib.Core.List.{foldl}
use shrikedb.Prelude.{
  ℕ, zero, suc, ◌+◌, ◌/◌, ◌%◌, ◌^◌, Bool, Option, none, some, List, [], ◌∷◌, ◌++◌, ltb, leb, ◌==◌,
  if◌then◌else◌, length,
}
use shrikedb.Prelude.Int.{ℤ, pos, negsuc}
use shrikedb.Std.Bytes.{Bytes, codes, bytes_eq}
use shrikedb.Std.Text.{is_utf8}
use shrikedb.Std.Integer.{int_to_string, parse_i64}
use shrikedb.Core.CompactObj.{PrimeKey, PrimeValue, string, integer, new_key, key_bytes}
use shrikedb.Persistence.Format.{
  type_string, opcode_aux, opcode_resizedb, opcode_expiretime_ms, opcode_selectdb, opcode_eof,
  crc64, le_bytes, be_bytes, as_word,
}

abbrev pub Chunks : Type 0
Chunks = List Bytes

pub record RdbSaver : Type 0 where
  pub writer : Bytes
  pub crc : ℕ
  pub bytes_written : ℕ

-- `RdbSaver::new`
abbrev pub new_saver : RdbSaver
new_saver = record { writer = []; crc = 0; bytes_written = 0 }

unfoldable pub write_bytes : RdbSaver → Bytes → RdbSaver
write_bytes s d = record {
  writer = s.writer ++ d;
  crc = crc64 s.crc d;
  bytes_written = s.bytes_written + length d;
}

unfoldable pub write_all : Chunks → RdbSaver → RdbSaver
unfolding write_bytes
write_all chunks s = foldl write_bytes s chunks

abbrev pub write_byte : ℕ → Chunks
write_byte b = (b ∷ []) ∷ []

unfoldable pub write_header : Chunks
write_header = codes "REDIS" ∷ codes "0009" ∷ []

-- `0x40 | (len >> 8)` for a number below 2 ^ 14, whose high part is below 64.
unfoldable pub write_length : ℕ → Chunks
write_length len =
    if ltb len 64
    then write_byte len
    else if ltb len 16384
    then write_byte (0x40 + len / 256) ++ write_byte (len % 256)
    else if ltb len (2 ^ 32)
    then write_byte 0x80 ++ (be_bytes 4 len ∷ [])
    else write_byte 0x81 ++ (be_bytes 8 len ∷ [])

-- `n >= MIN && n <= MAX` for a signed type of the greatest value `max`.
abbrev pub fits : ℕ → ℤ → Bool
fits max (pos n) = leb n max
fits max (negsuc n) = leb n max

unfoldable pub write_integer_as_string : ℤ → Chunks
unfolding write_length
write_integer_as_string n =
    if fits 127 n
    then write_byte 0xC0 ++ write_byte (as_word 256 n)
    else if fits 32767 n
    then write_byte 0xC1 ++ (le_bytes 2 (as_word 65536 n) ∷ [])
    else if fits 2147483647 n
    then write_byte 0xC2 ++ (le_bytes 4 (as_word (2 ^ 32) n) ∷ [])
    else write_length (length (int_to_string n)) ++ (int_to_string n ∷ [])

abbrev pub same_text : Bytes → Option ℤ → Option ℤ
same_text d none = none
same_text d (some n) = if bytes_eq (int_to_string n) d then some n else none

unfoldable pub try_parse_integer : Bytes → Option ℤ
try_parse_integer d = if is_utf8 d then same_text d (parse_i64 d) else none

abbrev pub write_plain : Bytes → Chunks
write_plain d = write_length (length d) ++ (d ∷ [])

unfoldable pub write_string : Bytes → Chunks
unfolding write_length write_integer_as_string try_parse_integer
write_string d =
    if leb (length d) 11
    then elim (try_parse_integer d) [ none ↦ write_plain d | some n ↦ write_integer_as_string n ]
    else write_plain d

unfoldable pub write_aux : Bytes → Bytes → Chunks
unfolding write_string
write_aux key value = write_byte opcode_aux ++ (write_string key ++ write_string value)

unfoldable pub write_select_db : ℕ → Chunks
unfolding write_length
write_select_db db_index = write_byte opcode_selectdb ++ write_length db_index

unfoldable pub write_resize_db : ℕ → ℕ → Chunks
unfolding write_length
write_resize_db db_size expire_size =
    write_byte opcode_resizedb ++ (write_length db_size ++ write_length expire_size)

abbrev pub write_expiry : Option ℕ → Chunks
write_expiry none = []
write_expiry (some ms) = write_byte opcode_expiretime_ms ++ (le_bytes 8 ms ∷ [])

-- The type, the key and the value; nothing for a value that is no string.
abbrev pub write_typed : PrimeKey → PrimeValue → Chunks
write_typed key (string d) =
    write_byte type_string ++ (write_string (key_bytes key) ++ write_string d)
write_typed key (integer n) =
    write_byte type_string ++ (write_string (key_bytes key) ++ write_integer_as_string n)
write_typed key _ = []

unfoldable pub write_key_value : PrimeKey → PrimeValue → Option ℕ → Chunks
unfolding write_string write_integer_as_string
write_key_value key value expire_ms = write_expiry expire_ms ++ write_typed key value

-- The checksum is not part of itself.
unfoldable pub write_eof : RdbSaver → RdbSaver
unfolding write_all
write_eof s =
    let s' = write_all (write_byte opcode_eof) s in
    record s' { writer = s'.writer ++ le_bytes 8 s'.crc; bytes_written = s'.bytes_written + 8 }

pub record SnapshotEntry : Type 0 where
  pub db : ℕ
  pub key : Bytes
  pub value : PrimeValue
  pub expire_ms : Option ℕ

abbrev pub ShardSnapshot : Type 0
ShardSnapshot = List SnapshotEntry

-- The entries of one database, in their order, of all shards.
unfoldable pub db_entries : ℕ → List SnapshotEntry → List SnapshotEntry
db_entries idx [] = []
db_entries idx (e ∷ es) = let rest = db_entries idx es in if e.db == idx then e ∷ rest else rest

abbrev pub all_entries : List ShardSnapshot → List SnapshotEntry
all_entries [] = []
all_entries (s ∷ snapshots) = s ++ all_entries snapshots

abbrev pub expire_count : List SnapshotEntry → ℕ
expire_count [] = 0
expire_count (e ∷ es) = expire_count es + (elim e.expire_ms [ none ↦ 0 | some ms ↦ 1 ])

abbrev pub write_entries : List SnapshotEntry → Chunks
write_entries [] = []
write_entries (e ∷ es) = write_key_value (new_key e.key) e.value e.expire_ms ++ write_entries es

-- A database without entries is left out.
abbrev pub write_db : ℕ → List SnapshotEntry → Chunks
write_db idx [] = []
write_db idx (e ∷ es) =
    write_select_db idx
    ++ (write_resize_db (length (e ∷ es)) (expire_count (e ∷ es)) ++ write_entries (e ∷ es))

-- The databases from `idx` on, of `n`.
unfoldable pub write_dbs : ℕ → ℕ → List SnapshotEntry → Chunks
unfolding db_entries write_select_db write_resize_db write_key_value
write_dbs zero idx es = []
write_dbs (suc n) idx es = write_db idx (db_entries idx es) ++ write_dbs n (suc idx) es

abbrev pub write_preamble : Chunks
write_preamble =
    write_header
    ++ (write_aux (codes "redis-ver") (codes "7.0.0")
        ++ write_aux (codes "shrikedb-ver") (codes "0.1.0"))

-- The bytes of the file.
unfoldable pub save_rdb : List ShardSnapshot → RdbSaver
unfolding write_all write_header write_aux write_dbs write_eof
save_rdb snapshots =
    write_eof (write_all (write_preamble ++ write_dbs 16 0 (all_entries snapshots)) new_saver)
