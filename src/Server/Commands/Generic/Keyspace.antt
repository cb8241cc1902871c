-- ===== src/Server/Commands/Generic/Keyspace.antt =====
-- generic_family.rs: KEYS, SCAN, RANDOMKEY, DBSIZE, FLUSHDB, FLUSHALL and INFO.
use shrikedb.Prelude.{ℕ, zero, suc, ◌-◌, Option, none, some, [], ◌∷◌, ◌++◌, if◌then◌else◌, drop}
use shrikedb.Std.Bytes.{Bytes, codes, bytes_eq}
use shrikedb.Std.Integer.{as_i64, parse_u64, nat_to_string}
use shrikedb.Core.CompactObj.{PrimeKey, key_bytes}
use shrikedb.Facade.Resp.{RespExpr, RespArgs}
use shrikedb.Facade.Reply.{Reply, ok, null, err, integer, bulk_string, array_len, string_array}
use shrikedb.Server.DbSlice.{DbTable, db_size, flush_db, num_dbs}
use shrikedb.Server.DbSlice.Scan.{keys, scan}
use shrikedb.Server.Context.{
  M, ◌>>=◌, ◌>>◌, pure, send, send_all, on, on_index, arg_str, arg_word, unwrap,
}

abbrev or_else_star : Option Bytes → Bytes
or_else_star none = codes "*"
or_else_star (some s) = s

unfoldable pub cmd_keys : RespArgs → M (Unit {0})
cmd_keys args = do found ← on (keys (or_else_star (arg_str args 1))); send_all (string_array found)

-- `arg_str(i).and_then(|s| s.parse().ok())`, for u64 and usize.
abbrev parsed_u64 : Option Bytes → Option ℕ
parsed_u64 none = none
parsed_u64 (some s) = parse_u64 s

pub record ScanOptions : Type 0 where
  pub count : ℕ
  pub pattern : Option Bytes

abbrev or_count : ScanOptions → Option ℕ → ScanOptions
or_count o none = o
or_count o (some n) = record o { count = n }

abbrev arg_at : RespExpr → Option Bytes
arg_at e = arg_str (e ∷ []) 0

-- The loop over the arguments from the third on. A word that is no option is passed over.
unfoldable pub scan_options : RespArgs → ScanOptions → ScanOptions
scan_options [] o = o
scan_options (e ∷ []) o =
    if bytes_eq (arg_word (e ∷ []) 0) (codes "MATCH") then record o { pattern = none } else o
scan_options (e ∷ v ∷ rest) o =
    let counted = scan_options rest (or_count o (parsed_u64 (arg_at v))) in
    let matched = scan_options rest (record o { pattern = arg_at v }) in
    let passed = scan_options (v ∷ rest) o in
    if bytes_eq (arg_word (e ∷ []) 0) (codes "COUNT")
    then counted
    else if bytes_eq (arg_word (e ∷ []) 0) (codes "MATCH")
    then matched
    else passed

unfoldable pub cmd_scan : RespArgs → M (Unit {0})
unfolding scan_options
cmd_scan args = elim (parsed_u64 (arg_str args 1)) [
  | none ↦ send (err (codes "invalid cursor"))
  | some cursor ↦ do
    let o = scan_options (drop 2 args) (record { count = 10; pattern = none })
    r ← on (scan cursor o.count o.pattern)
    (found, next) ← unwrap r
    send (array_len 2)
    send (bulk_string (nat_to_string next))
    send_all (string_array found)
]

-- The first entry of the table; its deadline is not looked at.
first_key : ℕ → DbTable → DbTable × Option PrimeKey
first_key now db = (db, elim db.prime [ [] ↦ none | (k, v) ∷ m ↦ some k ])

abbrev key_reply : Option PrimeKey → Reply
key_reply none = null
key_reply (some k) = bulk_string (key_bytes k)

unfoldable pub cmd_randomkey : RespArgs → M (Unit {0})
unfolding first_key
cmd_randomkey args = do k ← on first_key; send (key_reply k)

unfoldable pub cmd_dbsize : RespArgs → M (Unit {0})
cmd_dbsize args = do n ← on db_size; send (integer (as_i64 n))

unfoldable pub cmd_flushdb : RespArgs → M (Unit {0})
cmd_flushdb args = do on flush_db; send ok

-- `for i in 0..16`: the databases from `num_dbs - left` on.
flush_from : ℕ → M (Unit {0})
flush_from zero = pure tt
flush_from (suc left) = do on_index (num_dbs - suc left) flush_db; flush_from left

unfoldable pub cmd_flushall : RespArgs → M (Unit {0})
unfolding flush_from
cmd_flushall args = do flush_from num_dbs; send ok

unfoldable pub cmd_info : RespArgs → M (Unit {0})
cmd_info args = do
  n ← on db_size
  send (
      bulk_string (
        codes "# Server\r\nshrikedb_version:0.1.0\r\n# Keyspace\r\ndb0:keys="
        ++ (nat_to_string n ++ codes ",expires=0\r\n")))
