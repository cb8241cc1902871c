-- ===== src/Server/DbSlice/Reachable.antt =====
-- The databases that a sequence of operations of db_slice.rs reaches from the empty one, at any
-- times.
use shrikedb.Prelude.{ℕ, refl}
use shrikedb.Std.Bytes.{Bytes}
use shrikedb.Core.CompactObj.{PrimeValue}
use shrikedb.Core.CompactObj.Laws.{prime_key}
use shrikedb.Core.Contract
use shrikedb.Server.DbSlice.{
  DbTable, new_table, find, exists, add_or_update, add_if_absent, del, add_expire, write_back,
  remove_expire, ttl_ms, rename, flush_db, expire_sweep, clear,
}
use shrikedb.Server.DbSlice.Scan.{keys}
use shrikedb.Server.DbSlice.Scan.Laws.{keys_lem}
use shrikedb.Server.DbSlice.Consistent
use shrikedb.Server.DbSlice.Consistent.{IsConsistent}
use shrikedb.Server.DbSlice.Sweep.{expire_sweep_lem}

pub data Op : Type 0 where
  op_find op_exists op_del op_remove_expire op_ttl_ms op_keys : Bytes → Op
  op_add_or_update op_add_if_absent op_write_back : Bytes → PrimeValue → Op
  op_add_expire : Bytes → ℕ → Op
  op_rename : Bytes → Bytes → Op
  op_flush_db : Op
  op_expire_sweep : ℕ → Op

unfoldable pub run_op : Op → ℕ → DbTable → DbTable
run_op (op_find key) now db = (find key now db).0
run_op (op_exists key) now db = (exists key now db).0
run_op (op_del key) now db = (del key now db).0
run_op (op_remove_expire key) now db = (remove_expire key now db).0
run_op (op_ttl_ms key) now db = (ttl_ms key now db).0
run_op (op_keys pattern) now db = (keys pattern now db).0
run_op (op_add_or_update key v) now db = (add_or_update key v now db).0
run_op (op_add_if_absent key v) now db = (add_if_absent key v now db).0
run_op (op_write_back key v) now db = (write_back key v now db).0
run_op (op_add_expire key d) now db = (add_expire key d now db).0
run_op (op_rename from to) now db = (rename from to now db).0
run_op op_flush_db now db = (flush_db now db).0
run_op (op_expire_sweep count) now db = (expire_sweep count now db).0

pub data Reachable : DbTable → Type 0 where
  start : Reachable new_table
  step : (op : Op) (now : ℕ) {db : DbTable} → Reachable db → Reachable (run_op op now db)

new_table-IsConsistent : IsConsistent new_table
new_table-IsConsistent = record { held = λ j h. unfold Contract.find in refl; distinct = tt }

pub run_op-IsConsistent :
    (op : Op) (now : ℕ) {db : DbTable} → IsConsistent db → IsConsistent (run_op op now db)
unfolding run_op flush_db clear
run_op-IsConsistent (op_find key) now c = Consistent.find-IsConsistent key now c
run_op-IsConsistent (op_exists key) now c = Consistent.exists-IsConsistent key now c
run_op-IsConsistent (op_del key) now c = Consistent.del-IsConsistent key now c
run_op-IsConsistent (op_remove_expire key) now c = Consistent.remove_expire-IsConsistent key now c
run_op-IsConsistent (op_ttl_ms key) now c = Consistent.ttl_ms-IsConsistent key now c
run_op-IsConsistent (op_keys pattern) now {db} c = (keys_lem pattern now db c).1
run_op-IsConsistent (op_add_or_update key v) now c =
    Consistent.add_or_update-IsConsistent key now c v
run_op-IsConsistent (op_add_if_absent key v) now c =
    Consistent.add_if_absent-IsConsistent key now c v
run_op-IsConsistent (op_write_back key v) now c = Consistent.write_back-IsConsistent key now c v
run_op-IsConsistent (op_add_expire key d) now c = Consistent.add_expire-IsConsistent key now c d
run_op-IsConsistent (op_rename from to) now c = Consistent.rename-IsConsistent from to now c
run_op-IsConsistent op_flush_db now c = new_table-IsConsistent
run_op-IsConsistent (op_expire_sweep count) now {db} c = (expire_sweep_lem count now db c).1

-- In every database that the operations reach, at any times, the expire table holds no key that
-- the prime table does not hold, and holds each of its keys once.
pub reachable-IsConsistent : {db : DbTable} → Reachable db → IsConsistent db
reachable-IsConsistent start = new_table-IsConsistent
reachable-IsConsistent (step op now r) = run_op-IsConsistent op now (reachable-IsConsistent r)
