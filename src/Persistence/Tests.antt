-- ===== src/Persistence/Tests.antt =====
-- A small snapshot, saved and loaded.
use shrikedb.Prelude.{◌≡◌, ◌≢◌, refl, none, some, List, [], ◌∷◌, arith}
use shrikedb.Prelude.Int.{negsuc}
use shrikedb.Std.Bytes.{Bytes, codes}
use shrikedb.Core.CompactObj.{PrimeValue, string, integer, list, is_string}
use shrikedb.Persistence.Save.{
  SnapshotEntry, ShardSnapshot, write_entries, write_string, all_entries, save_rdb,
}
use shrikedb.Persistence.Load.{RdbEntry, ok, stuck, read_string, load_all}
use shrikedb.Persistence.RoundTrip.Reads.{Reads}
use shrikedb.Persistence.RoundTrip.Strings.{write_string-Reads}
use shrikedb.Persistence.RoundTrip.Expiry.{write_entries-misplaced}
use shrikedb.Persistence.RoundTrip.Snapshot.{load_all-save_rdb}
use shrikedb.Persistence.Termination.{load_all-some}

abbrev text_entry : SnapshotEntry
text_entry = record {
  db = 0;
  key = codes "k";
  value = string (codes "hello");
  expire_ms = some 5000;
}

abbrev number_entry : SnapshotEntry
number_entry = record { db = 3; key = codes "17"; value = integer (negsuc 299); expire_ms = none }

abbrev list_entry : SnapshotEntry
list_entry = record { db = 0; key = codes "l"; value = list (codes "a" ∷ []); expire_ms = none }

abbrev snapshots : List ShardSnapshot
snapshots = (number_entry ∷ list_entry ∷ []) ∷ (text_entry ∷ []) ∷ []

abbrev loaded : List RdbEntry
loaded =
    record { db_index = 0; key = codes "k"; value = string (codes "hello"); expire_ms = some 5000 }
    ∷ record { db_index = 3; key = codes "17"; value = integer (negsuc 299); expire_ms = none }
    ∷ []

load_all-save_rdb_example : load_all (save_rdb snapshots).writer ≡ ok loaded
unfolding shrikedb.Persistence.Save.db_entries is_string shrikedb.Core.CompactObj.from_bytes
    shrikedb.Std.Integer.parse_text shrikedb.Core.CompactObj.as_bytes
    shrikedb.Std.Integer.int_to_string shrikedb.Std.Bytes.bytes_eq
load_all-save_rdb_example = load_all-save_rdb snapshots (omega arith) (
  record { key = omega arith; deadline = tt; value = tt },
  (
    record { key = omega arith; deadline = tt; value = tt },
    (record { key = omega arith; deadline = omega arith; value = omega arith }, tt),
  ),
)

write_string-Reads_example : Reads 0 0 (write_string (codes "-17")) read_string (codes "-17")
write_string-Reads_example = write_string-Reads (codes "-17") (omega arith)

write_entries-misplaced_example :
    write_entries (record list_entry { expire_ms = some 9 } ∷ number_entry ∷ [])
    ≡ write_entries (record number_entry { expire_ms = some 9 } ∷ [])
unfolding is_string
write_entries-misplaced_example =
    write_entries-misplaced (record list_entry { expire_ms = some 9 }) number_entry [] refl refl

load_all-some_example : load_all (codes "REDIS0009") ≢ stuck
load_all-some_example = load_all-some (codes "REDIS0009")
