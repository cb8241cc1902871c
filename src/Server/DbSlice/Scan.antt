-- ===== src/Server/DbSlice/Scan.antt =====
-- db_slice.rs: SCAN and KEYS over one database.
pub mod Laws
use shrikedb.Prelude.{
  ℕ, ◌≡◌, Bool, true, false, Option, none, some, List, [], ◌∷◌, leb, if◌then◌else◌,
}
use shrikedb.Std.Bytes.{Bytes}
use shrikedb.Core.CompactObj.{PrimeKey, PrimeValue, key_bytes}
use shrikedb.Core.CompactObj.Laws.{prime_key}
use shrikedb.Core.Contract
use shrikedb.Core.Contract.{Entries}
use shrikedb.Server.DbSlice.{DbTable, remove_keys}
use shrikedb.Server.Glob.{glob_match}

abbrev pub matches : Option Bytes → Bytes → Bool
matches none key = true
matches (some pattern) key = glob_match pattern key

-- The `filter_map` over the scanned entries. Expired keys are not left out.
unfoldable pub matching : Option Bytes → Entries PrimeKey PrimeValue → List Bytes
matching pattern [] = []
matching pattern ((k, v) ∷ m) =
    let rest = matching pattern m in
    if matches pattern (key_bytes k) then key_bytes k ∷ rest else rest

abbrev found_keys :
    Option Bytes → Option (Entries PrimeKey PrimeValue × ℕ) → Option (List Bytes × ℕ)
found_keys pattern none = none
found_keys pattern (some (entries, next)) = some (matching pattern entries, next)

unfoldable pub scan : ℕ → ℕ → Option Bytes → ℕ → DbTable → DbTable × Option (List Bytes × ℕ)
unfolding matching
scan cursor count pattern now db = (db, found_keys pattern (Contract.scan cursor count db.prime))

-- Has the deadline of the key come?
unfoldable pub is_expired : ℕ → Entries PrimeKey ℕ → PrimeKey → Bool
is_expired now expire k = elim (Contract.find k expire) [
  | none ↦ false
  | some deadline ↦ leb deadline now
]

-- The loop of `keys`: the keys to remove, and those that match.
unfoldable pub split_keys :
    Bytes → ℕ → Entries PrimeKey ℕ → Entries PrimeKey PrimeValue → List PrimeKey × List Bytes
unfolding is_expired
split_keys pattern now expire [] = ([], [])
split_keys pattern now expire ((k, v) ∷ m) =
    let (gone, result) = split_keys pattern now expire m in
    if is_expired now expire k
    then (k ∷ gone, result)
    else if glob_match pattern (key_bytes k)
    then (gone, key_bytes k ∷ result)
    else (gone, result)

unfoldable pub keys : Bytes → ℕ → DbTable → DbTable × List Bytes
unfolding split_keys remove_keys
keys pattern now db =
    let (gone, result) = split_keys pattern now db.expire db.prime in (remove_keys gone db, result)
