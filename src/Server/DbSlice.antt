-- ===== src/Server/DbSlice.antt =====
-- db_table.rs and db_slice.rs: the databases of one shard, with lazy and active expiry. An
-- operation takes the time of the slice and one database; `on_db` selects that database.
pub mod View
pub mod Laws
pub mod Consistent
pub mod Sweep
pub mod Scan
pub mod Reachable
use shrikedb.Prelude.{
  ℕ, ◌-◌, Bool, true, false, Option, none, some, List, [], ◌∷◌, not, leb, length, take, get_elem?,
  set, replicate, if◌then◌else◌,
}
use shrikedb.Std.Bytes.{Bytes}
use shrikedb.Core.CompactObj.{PrimeKey, PrimeValue, new_key}
use shrikedb.Core.CompactObj.Laws.{prime_key}
use shrikedb.Core.Contract
use shrikedb.Core.Contract.{Entries}

pub record DbTable : Type 0 where
  pub prime : Entries PrimeKey PrimeValue
  pub expire : Entries PrimeKey ℕ

-- `DbTable::new`
abbrev pub new_table : DbTable
new_table = record { prime = []; expire = [] }

-- `DbTable::clear`
unfoldable pub clear : DbTable → DbTable
clear db = record { prime = []; expire = [] }

abbrev pub num_dbs : ℕ
num_dbs = 16

pub record DbSlice : Type 0 where
  pub dbs : List DbTable
  pub now_ms : ℕ

-- `DbSlice::new`
abbrev pub new_slice : DbSlice
new_slice = record { dbs = replicate num_dbs new_table; now_ms = 0 }

unfoldable pub update_time : ℕ → DbSlice → DbSlice
update_time now s = record s { now_ms = now }

-- An operation on `&mut self.dbs[db_index]`; an index out of range panics.
unfoldable pub on_db {ℓ} :
    {A : Type ℓ} → ℕ → (ℕ → DbTable → DbTable × A) → DbSlice → Option (DbSlice × A)
on_db i f s = elim (get_elem? s.dbs i) [
  | none ↦ none
  | some db ↦ let (db', a) = f s.now_ms db in some (record s { dbs = set s.dbs i db' }, a)
]

unfoldable pub db_size : ℕ → DbTable → DbTable × ℕ
db_size now db = (db, length db.prime)

-- Both tables lose the key if its deadline has come.
unfoldable pub check_and_expire : PrimeKey → ℕ → DbTable → DbTable × Bool
check_and_expire pk now db = elim (Contract.find pk db.expire) [
  | none ↦ (db, false)
  | some deadline ↦
      if leb deadline now
      then (
        record { prime = Contract.remove pk db.prime; expire = Contract.remove pk db.expire },
        true,
      )
      else (db, false)
]

pub record FindResult : Type 0 where
  pub value : PrimeValue
  pub has_expire : Bool

-- `find` and `find_mut`; the caller of `find_mut` writes through the reference by `write_back`.
unfoldable pub find : Bytes → ℕ → DbTable → DbTable × Option FindResult
unfolding check_and_expire
find key now db =
    let pk = new_key key in
    let (db', gone) = check_and_expire pk now db in
    if gone then (db', none) else elim (Contract.find pk db'.prime) [
      | none ↦ (db', none)
      | some v ↦ (db', some (record { value = v; has_expire = Contract.contains pk db'.expire }))
    ]

-- `*r.value = v` for the reference of a `find_mut` that found the key.
unfoldable pub write_back : Bytes → PrimeValue → ℕ → DbTable → DbTable × Unit {0}
write_back key v now db = (record db { prime = Contract.insert (new_key key) v db.prime }, tt)

unfoldable pub add_or_update : Bytes → PrimeValue → ℕ → DbTable → DbTable × Bool
add_or_update key v now db =
    let pk = new_key key in
    (record db { prime = Contract.insert pk v db.prime }, not (Contract.contains pk db.prime))

unfoldable pub add_if_absent : Bytes → PrimeValue → ℕ → DbTable → DbTable × Bool
unfolding check_and_expire
add_if_absent key v now db =
    let pk = new_key key in
    let (db', gone) = check_and_expire pk now db in
    let added : DbTable × Bool = (record db' { prime = Contract.insert pk v db'.prime }, true) in
    if gone then added else if Contract.contains pk db'.prime then (db', false) else added

unfoldable pub del : Bytes → ℕ → DbTable → DbTable × Bool
del key now db =
    let pk = new_key key in
    (
      record { prime = Contract.remove pk db.prime; expire = Contract.remove pk db.expire },
      Contract.contains pk db.prime,
    )

abbrev pub is_some {ℓ} : {A : Type ℓ} → Option A → Bool
is_some none = false
is_some (some _) = true

unfoldable pub exists : Bytes → ℕ → DbTable → DbTable × Bool
unfolding find
exists key now db = let (db', r) = find key now db in (db', is_some r)

unfoldable pub add_expire : Bytes → ℕ → ℕ → DbTable → DbTable × Unit {0}
add_expire key deadline now db =
    let pk = new_key key in
    if Contract.contains pk db.prime
    then (record db { expire = Contract.insert pk deadline db.expire }, tt)
    else (db, tt)

unfoldable pub remove_expire : Bytes → ℕ → DbTable → DbTable × Bool
remove_expire key now db =
    let pk = new_key key in
    (record db { expire = Contract.remove pk db.expire }, Contract.contains pk db.expire)

pub data TtlResult : Type 0 where
  key_not_found no_expiry : TtlResult
  expires : ℕ → TtlResult

unfoldable pub ttl_ms : Bytes → ℕ → DbTable → DbTable × TtlResult
ttl_ms key now db =
    let pk = new_key key in
    if Contract.contains pk db.prime
    then elim (Contract.find pk db.expire) [
      | none ↦ (db, no_expiry)
      | some deadline ↦
          if leb deadline now
          then (
            record { prime = Contract.remove pk db.prime; expire = Contract.remove pk db.expire },
            key_not_found,
          )
          else (db, expires (deadline - now))
    ]
    else (db, key_not_found)

-- The deadline moves with the value, and that of the target is dropped.
set_deadline : PrimeKey → Option ℕ → Entries PrimeKey ℕ → Entries PrimeKey ℕ
set_deadline pk none expire = expire
set_deadline pk (some deadline) expire = Contract.insert pk deadline expire

unfoldable pub rename : Bytes → Bytes → ℕ → DbTable → DbTable × Bool
unfolding set_deadline
rename from to now db =
    let from_pk = new_key from in
    let to_pk = new_key to in
    let deadline = Contract.find from_pk db.expire in
    let expire = Contract.remove from_pk db.expire in
    let prime = Contract.remove from_pk db.prime in
    elim (Contract.find from_pk db.prime) [
      | none ↦ (record { prime = prime; expire = expire }, false)
      | some v ↦ (
        record {
          prime = Contract.insert to_pk v prime;
          expire = set_deadline to_pk deadline (Contract.remove to_pk expire);
        },
        true,
      )
    ]

unfoldable pub flush_db : ℕ → DbTable → DbTable × Unit {0}
unfolding clear
flush_db now db = (clear db, tt)

-- The keys among the scanned entries whose deadline has come.
unfoldable pub expired_keys : ℕ → Entries PrimeKey ℕ → List PrimeKey
expired_keys now [] = []
expired_keys now ((k, deadline) ∷ m) =
    let rest = expired_keys now m in if leb deadline now then k ∷ rest else rest

unfoldable pub remove_keys : List PrimeKey → DbTable → DbTable
remove_keys [] db = db
remove_keys (k ∷ ks) db =
    remove_keys ks
      (record { prime = Contract.remove k db.prime; expire = Contract.remove k db.expire })

-- `expire_sweep` looks at the first `count` entries of the expire table.
unfoldable pub expire_sweep : ℕ → ℕ → DbTable → DbTable × ℕ
unfolding expired_keys remove_keys
expire_sweep count now db =
    let gone = expired_keys now (take count db.expire) in (remove_keys gone db, length gone)
