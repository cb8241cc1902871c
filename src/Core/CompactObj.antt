-- ===== src/Core/CompactObj.antt =====
-- compact_obj.rs: `PrimeKey`, which keeps short keys inline, and `PrimeValue`, the values of all
-- Redis types. An f64 is its IEEE bit pattern, a number below 2 ^ 64.
pub mod Laws
use shrikedb.Prelude.{
  ℕ, ◌-◌, ◌≡◌, refl, Bool, true, false, Option, none, some, List, [], ◌∷◌, ◌++◌, length, take,
  replicate, leb, if◌then◌else◌,
}
use shrikedb.Prelude.Int.{ℤ}
use shrikedb.Std.Bytes.{Bytes, codes, bytes_eq}
use shrikedb.Std.Integer.{int_to_string, parse_text}

abbrev pub inline_len : ℕ
inline_len = 15

-- `inline` has the array of `inline_len` bytes and the number of them in use.
pub data PrimeKey : Type 0 where
  inline : Bytes → ℕ → PrimeKey
  heap : Bytes → PrimeKey

-- `PrimeKey::new`
unfoldable pub new_key : Bytes → PrimeKey
new_key d =
    if leb (length d) inline_len
    then inline (d ++ replicate (inline_len - length d) 0) (length d)
    else heap d

unfoldable pub key_bytes : PrimeKey → Bytes
key_bytes (inline d len) = take len d
key_bytes (heap b) = b

-- `PartialEq for PrimeKey`
unfoldable pub key_eq : PrimeKey → PrimeKey → Bool
key_eq a b = bytes_eq (key_bytes a) (key_bytes b)

abbrev pub F64 : Type 0
F64 = ℕ

pub data PrimeValue : Type 0 where
  string : Bytes → PrimeValue
  integer : ℤ → PrimeValue
  list : List Bytes → PrimeValue
  set : List Bytes → PrimeValue
  hash : List (Bytes × Bytes) → PrimeValue
  zset : List (Bytes × F64) → List (F64 × Bytes) → PrimeValue

unfoldable pub type_name : PrimeValue → Bytes
type_name (string _) = codes "string"
type_name (integer _) = codes "string"
type_name (list _) = codes "list"
type_name (set _) = codes "set"
type_name (hash _) = codes "hash"
type_name (zset _ _) = codes "zset"

unfoldable pub as_bytes : PrimeValue → Bytes
as_bytes (string s) = s
as_bytes (integer n) = int_to_string n
as_bytes _ = []

unfoldable pub as_integer : PrimeValue → Option ℤ
as_integer (integer n) = some n
as_integer (string s) = parse_text s
as_integer _ = none

unfoldable pub strlen : PrimeValue → ℕ
strlen (string s) = length s
strlen (integer n) = length (int_to_string n)
strlen _ = 0

unfoldable pub is_string : PrimeValue → Bool
is_string (string _) = true
is_string (integer _) = true
is_string _ = false

unfoldable pub ensure_string : PrimeValue → PrimeValue
ensure_string (integer n) = string (int_to_string n)
ensure_string v = v

abbrev from_parsed : Bytes → Option ℤ → PrimeValue
from_parsed d none = string d
from_parsed d (some n) = if bytes_eq (int_to_string n) d then integer n else string d

unfoldable pub from_bytes : Bytes → PrimeValue
from_bytes d = from_parsed d (parse_text d)
