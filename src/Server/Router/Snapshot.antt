-- ===== src/Server/Router/Snapshot.antt =====
-- `collect_snapshot` and `load_entries` of shard_thread.rs, and `load_entries` of
-- engine_shard_set.rs: the way of the data from the shards to a file and back.
use shrikedb.Prelude.{
  ℕ, suc, ◌%◌, Bool, true, false, Option, none, some, List, [], ◌∷◌, ◌++◌, leb, ◌==◌, if◌then◌else◌,
}
use shrikedb.Core.CompactObj.{PrimeKey, PrimeValue, key_bytes}
use shrikedb.Core.CompactObj.Laws.{prime_key}
use shrikedb.Core.Contract
use shrikedb.Core.Contract.{Entries}
use shrikedb.Persistence.Save.{SnapshotEntry, ShardSnapshot}
use shrikedb.Persistence.Load.{RdbEntry}
use shrikedb.Server.DbSlice.{DbTable, DbSlice, on_db, update_time, add_or_update, add_expire}
use shrikedb.Server.Context.{EngineShard}
use shrikedb.Server.Sharding.{shard}

unfoldable pub table_entries :
    ℕ → Entries PrimeKey ℕ → Entries PrimeKey PrimeValue → List SnapshotEntry
table_entries idx expire [] = []
table_entries idx expire ((k, v) ∷ m) =
    record { db = idx; key = key_bytes k; value = v; expire_ms = Contract.find k expire }
    ∷ table_entries idx expire m

-- The databases from `idx` on.
unfoldable pub dbs_entries : ℕ → List DbTable → List SnapshotEntry
unfolding table_entries
dbs_entries idx [] = []
dbs_entries idx (db ∷ dbs) = table_entries idx db.expire db.prime ++ dbs_entries (suc idx) dbs

unfoldable pub collect_snapshot : EngineShard → ShardSnapshot
unfolding dbs_entries
collect_snapshot s = dbs_entries 0 s.db_slice.dbs

-- `LoadEntry`, with `db_index as u16`.
abbrev pub load_entry : RdbEntry → RdbEntry
load_entry e = record e { db_index = e.db_index % 65536 }

-- The entries of one shard.
unfoldable pub shard_entries : ℕ → ℕ → List RdbEntry → List RdbEntry
shard_entries num_shards sid [] = []
shard_entries num_shards sid (e ∷ es) =
    let rest = shard_entries num_shards sid es in
    if shard e.key num_shards == sid then load_entry e ∷ rest else rest

-- `add_or_update` and `add_expire`; a database out of range panics.
abbrev put_entry : RdbEntry → ℕ → DbTable → DbTable × Unit {0}
put_entry e now db = elim e.expire_ms [
  | none ↦ ((add_or_update e.key e.value now db).0, tt)
  | some ms ↦ add_expire e.key ms now (add_or_update e.key e.value now db).0
]

abbrev has_come : ℕ → Option ℕ → Bool
has_come now none = false
has_come now (some ms) = leb ms now

unfoldable pub load_all_entries : ℕ → List RdbEntry → DbSlice → Option DbSlice
load_all_entries now [] s = some s
load_all_entries now (e ∷ es) s = elim (has_come now e.expire_ms) [
  | true ↦ load_all_entries now es s
  | false ↦ elim (on_db e.db_index (put_entry e) s) [
    | none ↦ none
    | some (s', r) ↦ load_all_entries now es s'
  ]
]

-- At the time `now`.
unfoldable pub load_entries : ℕ → EngineShard → List RdbEntry → Option EngineShard
unfolding load_all_entries
load_entries now s entries = elim (load_all_entries now entries (update_time now s.db_slice)) [
  | none ↦ none
  | some slice ↦ some (record s { db_slice = slice })
]
