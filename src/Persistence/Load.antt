-- ===== src/Persistence/Load.antt =====
-- rdb_load.rs, on a reader that is a list of bytes.
use shrikedb.Prelude.{
  ℕ, zero, suc, ◌+◌, ◌*◌, ◌/◌, ◌%◌, ◌^◌, Bool, true, false, ◌&&◌, Option, none, some, List, [], ◌∷◌,
  ltb, leb, ◌==◌, if◌then◌else◌, length, take, drop,
}
use shrikedb.Std.Bytes.{Bytes, codes, bytes_eq}
use shrikedb.Std.Integer.{int_to_string, parse_u64}
use shrikedb.Core.CompactObj.{PrimeValue, from_bytes}
use shrikedb.Persistence.Format.{
  type_string, opcode_slot_info, opcode_module_aux, opcode_idle, opcode_freq, opcode_aux,
  opcode_resizedb, opcode_expiretime_ms, opcode_expiretime, opcode_selectdb, opcode_eof, crc64,
  from_le, from_be, signed,
}

pub record RdbEntry : Type 0 where
  pub db_index : ℕ
  pub key : Bytes
  pub value : PrimeValue
  pub expire_ms : Option ℕ

pub data RdbLoadError : Type 0 where
  bad_magic unexpected_eof crc_mismatch corrupt : RdbLoadError
  unsupported_version unsupported_type : ℕ → RdbLoadError

pub record RdbLoader : Type 0 where
  pub reader : Bytes
  pub crc : ℕ
  pub current_db : ℕ
  pub rdb_version : ℕ

-- `RdbLoader::new`
abbrev pub new_loader : Bytes → RdbLoader
new_loader reader = record { reader = reader; crc = 0; current_db = 0; rdb_version = 0 }

-- `stuck` is no result of the code: the fuel ran out.
pub data Result (A : Type 0) : Type 0 where
  ok : A → Result A
  fail : RdbLoadError → Result A
  stuck : Result A

abbrev pub M : Type 0 → Type 0
M A = RdbLoader → Result (A × RdbLoader)

abbrev pub pure : {A : Type 0} → A → M A
pure a l = ok (a, l)

abbrev pub throw : {A : Type 0} → RdbLoadError → M A
throw e l = fail e

infixl 5 ◌>>=◌ ◌>>◌
abbrev pub ◌>>=◌ : {A B : Type 0} → M A → (A → M B) → M B
◌>>=◌ m f l = elim (m l) [ ok (a, l') ↦ f a l' | fail e ↦ fail e | stuck ↦ stuck ]

abbrev pub ◌>>◌ : {A B : Type 0} → M A → M B → M B
m >> n = m >>= λ _. n

unfoldable pub read_exact : ℕ → M Bytes
read_exact n l =
    if leb n (length l.reader)
    then ok (
      take n l.reader,
      record l { reader = drop n l.reader; crc = crc64 l.crc (take n l.reader) },
    )
    else fail unexpected_eof

abbrev pub first_byte : Bytes → ℕ
first_byte [] = 0
first_byte (b ∷ s) = b

unfoldable pub read_byte : M ℕ
unfolding read_exact
read_byte = do buf ← read_exact 1; pure (first_byte buf)

unfoldable pub read_u32_le : M ℕ
unfolding read_exact
read_u32_le = do buf ← read_exact 4; pure (from_le buf)

unfoldable pub read_u64_le : M ℕ
unfolding read_exact
read_u64_le = do buf ← read_exact 8; pure (from_le buf)

-- The checksum is read with no change to `crc`.
unfoldable pub read_u64_le_no_crc : M ℕ
read_u64_le_no_crc l =
    if leb 8 (length l.reader)
    then ok (from_le (take 8 l.reader), record l { reader = drop 8 l.reader })
    else fail unexpected_eof

-- `RDB_6BITLEN`, `RDB_14BITLEN`, the two long forms, and `RDB_ENCVAL`; `first` is a byte.
unfoldable pub length_form : ℕ → M (ℕ × Bool)
unfolding read_byte read_exact
length_form first =
    let kind = first / 64 in
    let low = first % 64 in
    if kind == 0
    then pure (low, false)
    else if kind == 1
    then (do second ← read_byte; pure (low * 256 + second, false))
    else if kind == 2
    then (if low == 0
        then (do buf ← read_exact 4; pure (from_be buf, false))
        else if low == 1
        then (do buf ← read_exact 8; pure (from_be buf, false))
        else throw corrupt)
    else pure (low, true)

unfoldable pub read_length_with_encoding : M (ℕ × Bool)
unfolding read_byte length_form
read_length_with_encoding = do first ← read_byte; length_form first

unfoldable pub read_length : M ℕ
unfolding read_length_with_encoding
read_length = do r ← read_length_with_encoding; pure r.0

-- The text of an integer, or an LZF string, which is passed over.
unfoldable pub read_encoded : ℕ → M Bytes
unfolding read_byte read_exact read_length
read_encoded kind =
    if kind == 0
    then (do v ← read_byte; pure (int_to_string (signed 256 v)))
    else if kind == 1
    then (do buf ← read_exact 2; pure (int_to_string (signed 65536 (from_le buf))))
    else if kind == 2
    then (do buf ← read_exact 4; pure (int_to_string (signed (2 ^ 32) (from_le buf))))
    else if kind == 3
    then (do clen ← read_length; read_length; read_exact clen; pure [])
    else throw corrupt

abbrev pub string_form : ℕ → Bool → M Bytes
string_form len true = read_encoded len
string_form len false = read_exact len

unfoldable pub read_string : M Bytes
unfolding read_length_with_encoding read_encoded
read_string = do r ← read_length_with_encoding; string_form r.0 r.1

-- A round of the loop of `read_entry`: the end of the file, an entry, or neither.
pub data Round : Type 0 where
  finished go_on : Round
  entry : RdbEntry → Round

abbrev pub the_db : M ℕ
the_db l = ok (l.current_db, l)

abbrev pub select : ℕ → M (Unit {0})
select db l = ok (tt, record l { current_db = db })

-- A value of an unsupported type is not read: the loop goes on after the key.
unfoldable pub read_entry_with_type : ℕ → Option ℕ → M Round
unfolding read_string
read_entry_with_type type_byte expire_ms = do
  key ← read_string
  (if type_byte == type_string
      then (do
        d ← read_string
        db ← the_db
        pure (
            entry
              (record { db_index = db; key = key; value = from_bytes d; expire_ms = expire_ms })))
      else pure go_on)

unfoldable pub read_typed_entry : Option ℕ → M Round
unfolding read_byte read_entry_with_type
read_typed_entry expire_ms = do type_byte ← read_byte; read_entry_with_type type_byte expire_ms

abbrev pub the_crc : M ℕ
the_crc l = ok (l.crc, l)

unfoldable pub check_eof : M Round
unfolding read_u64_le_no_crc
check_eof = do
  expected ← the_crc
  stored ← read_u64_le_no_crc
  (if (stored == 0)
      then pure finished
      else if stored == expected
      then pure finished
      else throw crc_mismatch)

unfoldable pub on_opcode : ℕ → M Round
unfolding check_eof read_length read_string read_u32_le read_u64_le read_byte read_typed_entry
    read_entry_with_type
on_opcode opcode =
    if opcode == opcode_eof
    then check_eof
    else if opcode == opcode_selectdb
    then (do db ← read_length; select (db % 2 ^ 32); pure go_on)
    else if opcode == opcode_resizedb
    then (do read_length; read_length; pure go_on)
    else if opcode == opcode_aux
    then (do read_string; read_string; pure go_on)
    else if opcode == opcode_expiretime
    then (do secs ← read_u32_le; read_typed_entry (some (secs * 1000)))
    else if opcode == opcode_expiretime_ms
    then (do ms ← read_u64_le; read_typed_entry (some ms))
    else if opcode == opcode_freq
    then (do read_byte; pure go_on)
    else if opcode == opcode_idle
    then (do read_length; pure go_on)
    else if leb opcode_slot_info opcode && leb opcode opcode_module_aux
    then throw (unsupported_type opcode)
    else read_entry_with_type opcode none

unfoldable pub read_round : M Round
unfolding read_byte on_opcode
read_round = do opcode ← read_byte; on_opcode opcode

abbrev pub cons_entry :
    RdbEntry → Result (List RdbEntry × RdbLoader) → Result (List RdbEntry × RdbLoader)
cons_entry e (ok (es, l)) = ok (e ∷ es, l)
cons_entry e (fail x) = fail x
cons_entry e stuck = stuck

-- The loop of `load_all` with that of `read_entry`: rounds up to the end of the file. A round takes
-- a byte at least.
unfoldable pub load_entries : ℕ → M (List RdbEntry)
unfolding read_round
load_entries zero l = stuck
load_entries (suc f) l = elim (read_round l) [
  | fail e ↦ fail e
  | stuck ↦ stuck
  | ok (finished, l') ↦ ok ([], l')
  | ok (go_on, l') ↦ load_entries f l'
  | ok (entry e, l') ↦ cons_entry e (load_entries f l')
]

-- `parse::<u32>()`, and at most version 12.
abbrev pub version_of : Option ℕ → M ℕ
version_of none = throw bad_magic
version_of (some v) =
    if ltb v (2 ^ 32)
    then (if ltb 12 v
        then throw (unsupported_version v)
        else (λ l. ok (v, record l { rdb_version = v })))
    else throw bad_magic

unfoldable pub read_header : M ℕ
unfolding read_exact
read_header = do
  magic ← read_exact 5
  (if bytes_eq magic (codes "REDIS")
      then (do ver ← read_exact 4; version_of (parse_u64 ver))
      else throw bad_magic)

abbrev pub result_of : {A : Type 0} → Result (A × RdbLoader) → Result A
result_of (ok (a, l)) = ok a
result_of (fail e) = fail e
result_of stuck = stuck

unfoldable pub load_all : Bytes → Result (List RdbEntry)
unfolding read_header load_entries
load_all reader = result_of ((do read_header; load_entries (length reader + 1)) (new_loader reader))
