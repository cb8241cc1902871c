-- ===== src/Server/Tests/Collections.antt =====
-- Runs of set and hash commands on a database with two sets and a hash.
use mathlib.Core.Path.{subst}
use mathlib.Core.Option.{some-injective}
use shrikedb.Prelude.{ℕ, ◌≡◌, refl, sym, ◌∙◌, some, List, [], ◌∷◌}
use shrikedb.Prelude.Int.{pos}
use shrikedb.Std.Bytes.{Bytes, codes, bytes_eq}
use shrikedb.Std.HashSet.{HashSet, contains}
use shrikedb.Std.HashSet.Laws.{IsDistinct}
use shrikedb.Core.CompactObj
use shrikedb.Core.CompactObj.{set, hash}
use shrikedb.Core.Key.{bytes_key}
use shrikedb.Core.Contract
use shrikedb.Core.Contract.{Unique}
use shrikedb.Facade.Resp.{RespArgs, string}
use shrikedb.Facade.Reply.{integer, string_array}
use shrikedb.Server.DbSlice.{DbTable, new_table, add_or_update, add_expire}
use shrikedb.Server.DbSlice.View.{view}
use shrikedb.Server.DbSlice.Reachable
use shrikedb.Server.DbSlice.Reachable.{
  Reachable, run_op, op_add_or_update, op_add_expire, step, start,
}
use shrikedb.Server.Context.{Context, M, arg_bytes}
use shrikedb.Server.Context.Laws.{strings}
use shrikedb.Server.Commands.Typed.Laws.{Sends}
use shrikedb.Server.Commands.Typed.Stored.{replaced}
use shrikedb.Server.Commands.Sets.{
  cmd_sadd, cmd_srem, SetOp, inter, union_op, diff, cmd_sinter, cmd_sunion, cmd_sdiff,
}
use shrikedb.Server.Commands.Sets.Stored.{stored_set, kept_set}
use shrikedb.Server.Commands.Sets.Loops.{Adds, Removes}
use shrikedb.Server.Commands.Sets.Laws.{cmd_sadd-Sends, cmd_srem-Sends}
use shrikedb.Server.Commands.Sets.Combine.{AllDistinct, in_result, stored_sets, set_op-Sends}
use shrikedb.Server.Commands.Hashes.{HashMap, cmd_hset, cmd_hdel}
use shrikedb.Server.Commands.Hashes.Stored.{stored_hash, kept_hash}
use shrikedb.Server.Commands.Hashes.Fields.{Sets, Drops}
use shrikedb.Server.Commands.Hashes.Laws.{cmd_hset-Sends, cmd_hdel-Sends}

abbrev first_set : HashSet
first_set = codes "a" ∷ codes "b" ∷ []

abbrev second_set : HashSet
second_set = codes "b" ∷ codes "c" ∷ []

abbrev two_fields : HashMap
two_fields = (codes "f", codes "v") ∷ (codes "g", codes "w") ∷ []

-- The first set has a deadline.
abbrev typed_db : DbTable
typed_db = run_op (op_add_expire (codes "s") 100) 0 (
    run_op (op_add_or_update (codes "h") (hash two_fields)) 0 (
      run_op (op_add_or_update (codes "u") (set second_set)) 0
        (run_op (op_add_or_update (codes "s") (set first_set)) 0 new_table)))

typed_db-Reachable : Reachable typed_db
typed_db-Reachable = step (op_add_expire (codes "s") 100) 0 (
    step (op_add_or_update (codes "h") (hash two_fields)) 0 (
      step (op_add_or_update (codes "u") (set second_set)) 0
        (step (op_add_or_update (codes "s") (set first_set)) 0 start)))

abbrev typed_context : Context
typed_context = record {
  db_index = 0;
  shard = record { db_slice = record { dbs = typed_db ∷ []; now_ms = 5 }; commands_processed = 0 };
  reply = [];
}

first_set-Seen : stored_set (view 5 typed_db (codes "s")) ≡ some first_set
unfolding view run_op add_expire add_or_update Contract.find Contract.insert Contract.contains
    CompactObj.key_eq bytes_eq CompactObj.key_bytes CompactObj.new_key
first_set-Seen = refl

first_set-IsDistinct :
    (s : HashSet) → stored_set (view 5 typed_db (codes "s")) ≡ some s → IsDistinct s
unfolding contains bytes_eq
first_set-IsDistinct s e =
    subst IsDistinct (some-injective first_set s (sym first_set-Seen ∙ e)) (refl, (refl, tt))

both_sets-Seen :
    stored_sets (view 5 typed_db) (codes "s" ∷ codes "u" ∷ []) ≡ some (first_set ∷ second_set ∷ [])
unfolding view run_op add_expire add_or_update Contract.find Contract.insert Contract.contains
    CompactObj.key_eq bytes_eq CompactObj.key_bytes CompactObj.new_key
both_sets-Seen = refl

both_sets-AllDistinct :
    (sets : List HashSet)
    → stored_sets (view 5 typed_db) (codes "s" ∷ codes "u" ∷ []) ≡ some sets
    → AllDistinct sets
unfolding contains bytes_eq
both_sets-AllDistinct sets e =
    subst AllDistinct (some-injective (first_set ∷ second_set ∷ []) sets (sym both_sets-Seen ∙ e))
      ((refl, (refl, tt)), ((refl, (refl, tt)), tt))

two_fields-Seen : stored_hash (view 5 typed_db (codes "h")) ≡ some two_fields
unfolding view run_op add_expire add_or_update Contract.find Contract.insert Contract.contains
    CompactObj.key_eq bytes_eq CompactObj.key_bytes CompactObj.new_key
two_fields-Seen = refl

two_fields-Unique : (m : HashMap) → stored_hash (view 5 typed_db (codes "h")) ≡ some m → Unique m
unfolding Contract.find bytes_eq
two_fields-Unique m e =
    subst Unique (some-injective two_fields m (sym two_fields-Seen ∙ e)) (refl, (refl, tt))

abbrev words : Bytes → List Bytes → RespArgs
words key rest = string (codes "CMD") ∷ string key ∷ strings rest

cmd_sadd-Sends_example :
    (r : HashSet × ℕ) × Adds (codes "b" ∷ codes "d" ∷ codes "d" ∷ []) first_set r
    × Sends
        (cmd_sadd (words (codes "s") (codes "b" ∷ codes "d" ∷ codes "d" ∷ [])))
        typed_context
        typed_db
        (integer (pos r.1) ∷ [])
        (replaced (codes "s") (some (set r.0)) 5 typed_db)
unfolding view run_op add_expire add_or_update Contract.find Contract.insert Contract.contains
    CompactObj.key_eq bytes_eq CompactObj.key_bytes CompactObj.new_key arg_bytes
    shrikedb.Facade.Resp.as_bytes
cmd_sadd-Sends_example =
    cmd_sadd-Sends typed_context typed_db refl (codes "s")
      (Reachable.reachable-IsConsistent typed_db-Reachable)
      (words (codes "s") (codes "b" ∷ codes "d" ∷ codes "d" ∷ []))
      (codes "b" ∷ codes "d" ∷ codes "d" ∷ []) refl refl first_set-IsDistinct

-- Both members go, and the key with them.
cmd_srem-Sends_example :
    (r : HashSet × ℕ) × Removes first_set first_set r
    × Sends
        (cmd_srem (words (codes "s") first_set))
        typed_context
        typed_db
        (integer (pos r.1) ∷ [])
        (replaced (codes "s") (kept_set r.0) 5 typed_db)
unfolding view run_op add_expire add_or_update Contract.find Contract.insert Contract.contains
    CompactObj.key_eq bytes_eq CompactObj.key_bytes CompactObj.new_key arg_bytes
    shrikedb.Facade.Resp.as_bytes
cmd_srem-Sends_example =
    cmd_srem-Sends typed_context typed_db refl (codes "s")
      (Reachable.reachable-IsConsistent typed_db-Reachable) (words (codes "s") first_set) first_set
      refl refl first_set-IsDistinct

abbrev two_keys : RespArgs
two_keys = string (codes "CMD") ∷ string (codes "s") ∷ string (codes "u") ∷ []

abbrev Combined : SetOp → M (Unit {0}) → Type 0
Combined op m =
    (result : HashSet) × ((j : Bytes)
      → contains j result ≡ in_result op j (first_set ∷ second_set ∷ []))
    × IsDistinct result
    × Sends m typed_context typed_db (string_array result) (view 5 typed_db)

set_op-Sends_example :
    Combined inter (cmd_sinter two_keys)
    × Combined union_op (cmd_sunion two_keys)
    × Combined diff (cmd_sdiff two_keys)
unfolding view run_op add_expire add_or_update Contract.find Contract.insert Contract.contains
    CompactObj.key_eq bytes_eq CompactObj.key_bytes CompactObj.new_key
set_op-Sends_example =
    set_op-Sends typed_context typed_db refl (Reachable.reachable-IsConsistent typed_db-Reachable)
      two_keys (codes "s" ∷ codes "u" ∷ []) refl both_sets-AllDistinct

cmd_hset-Sends_example :
    (r : HashMap × ℕ) × Sets ((codes "f", codes "x") ∷ (codes "i", codes "y") ∷ []) two_fields r
    × Sends
        (cmd_hset (words (codes "h") (codes "f" ∷ codes "x" ∷ codes "i" ∷ codes "y" ∷ [])))
        typed_context
        typed_db
        (integer (pos r.1) ∷ [])
        (replaced (codes "h") (some (hash r.0)) 5 typed_db)
unfolding view run_op add_expire add_or_update Contract.find Contract.insert Contract.contains
    CompactObj.key_eq bytes_eq CompactObj.key_bytes CompactObj.new_key arg_bytes
    shrikedb.Facade.Resp.as_bytes
cmd_hset-Sends_example =
    cmd_hset-Sends typed_context typed_db refl (codes "h")
      (Reachable.reachable-IsConsistent typed_db-Reachable)
      (words (codes "h") (codes "f" ∷ codes "x" ∷ codes "i" ∷ codes "y" ∷ [])) refl
      two_fields-Unique ((codes "f", codes "x") ∷ (codes "i", codes "y") ∷ []) refl

-- Both fields go, and the key with them.
cmd_hdel-Sends_example :
    (r : HashMap × ℕ) × Drops (codes "f" ∷ codes "g" ∷ []) two_fields r
    × Sends
        (cmd_hdel (words (codes "h") (codes "f" ∷ codes "g" ∷ [])))
        typed_context
        typed_db
        (integer (pos r.1) ∷ [])
        (replaced (codes "h") (kept_hash r.0) 5 typed_db)
unfolding view run_op add_expire add_or_update Contract.find Contract.insert Contract.contains
    CompactObj.key_eq bytes_eq CompactObj.key_bytes CompactObj.new_key arg_bytes
    shrikedb.Facade.Resp.as_bytes
cmd_hdel-Sends_example =
    cmd_hdel-Sends typed_context typed_db refl (codes "h")
      (Reachable.reachable-IsConsistent typed_db-Reachable)
      (words (codes "h") (codes "f" ∷ codes "g" ∷ [])) refl two_fields-Unique
      (codes "f" ∷ codes "g" ∷ []) refl
