-- ===== src/Server/Tests.antt =====
-- Runs of the shard's operations and commands on one small database.
mod Strings
mod Collections
mod Routing
use shrikedb.Prelude.{
  ℕ, ◌≤◌, ◌<◌, ◌≡◌, ◌≢◌, refl, Bool, true, false, ◌&&◌, Option, none, some, List, [], ◌∷◌, ◌++◌,
  arith, if◌then◌else◌,
}
use shrikedb.Prelude.Int.{ℤ, pos, negsuc}
use shrikedb.Std.Bytes.{Bytes, codes, bytes_eq}
use shrikedb.Core.CompactObj
use shrikedb.Core.CompactObj.{PrimeValue, from_bytes, new_key}
use shrikedb.Core.CompactObj.Laws.{prime_key}
use shrikedb.Core.Contract
use shrikedb.Facade.Resp.{RespArgs, string}
use shrikedb.Facade.Reply.{ok, integer, bulk_string}
use shrikedb.Server.DbSlice.{
  DbTable, new_table, find, add_or_update, add_if_absent, add_expire, ttl_ms, rename, del,
  expire_sweep, expires, remove_expire,
}
use shrikedb.Server.DbSlice.View.{Visible, view}
use shrikedb.Server.DbSlice.Laws
use shrikedb.Server.DbSlice.Consistent.{IsConsistent}
use shrikedb.Server.DbSlice.Reachable
use shrikedb.Server.DbSlice.Reachable.{
  Reachable, start, step, op_add_or_update, op_add_expire, run_op,
}
use shrikedb.Server.Context.{arg_int, Context, arg_bytes, arg_word, arg_positive_int}
use shrikedb.Server.Context.Laws.{put, say}
use shrikedb.Server.Commands.Strings.Options.{SetOptions, no_options, set_options, parsed, cmd_set}
use shrikedb.Server.Context.Answers.{Answers}
use shrikedb.Server.Commands.Strings.Set.{cmd_set-Answers}
use shrikedb.Server.Commands.Strings.{cmd_get}
use shrikedb.Server.Commands.Strings.Counters.{cmd_incr, cmd_decr, cmd_incrby, cmd_decrby}
use shrikedb.Server.Commands.Strings.IncrBy.{incr_commands_lem}
use shrikedb.Server.Commands.Strings.Laws.{cmd_get_lem}
use shrikedb.Server.DbSlice.Sweep.{Sweeps, expire_sweep_lem}
use shrikedb.Server.DbSlice.Scan.{keys}
use shrikedb.Server.DbSlice.Scan.Laws.{keys_lem}
use shrikedb.Server.Glob.{run, rounds, start_state}
use shrikedb.Server.Glob.Termination.{run-rounds}
use shrikedb.Server.Registry.{arity_fits}
use shrikedb.Server.Registry.Laws.{arity_fits_lem, arity_fits-wrapped}
use shrikedb.Server.Sharding.{shard, position}
use shrikedb.Server.Sharding.Laws.{shard-tagged, shard-lt}
use shrikedb.Server.Commands.Generic.Expiry.{set_expire_relative, set_expire_absolute}
use shrikedb.Server.Commands.Generic.Expire.{
  set_expire_relative-Answers, set_expire_absolute-Answers,
}
use shrikedb.Server.Commands.Lists.Commands.{cmd_rpush, cmd_lpush}
use shrikedb.Server.Commands.Lists.Push.{cmd_rpush-Answers, cmd_lpush-Answers}

abbrev pub name : Bytes
name = codes "k"

-- The empty database after a write and a deadline at 100.
abbrev pub held_db : DbTable
held_db =
    run_op (op_add_expire name 100) 0
      (run_op (op_add_or_update name (from_bytes (codes "7"))) 0 new_table)

pub held_db-Reachable : Reachable held_db
held_db-Reachable =
    step (op_add_expire name 100) 0 (step (op_add_or_update name (from_bytes (codes "7"))) 0 start)

reachable-IsConsistent_example : IsConsistent held_db
reachable-IsConsistent_example = Reachable.reachable-IsConsistent held_db-Reachable

abbrev pub held_context : Context
held_context = record {
  db_index = 0;
  shard = record { db_slice = record { dbs = held_db ∷ []; now_ms = 5 }; commands_processed = 0 };
  reply = [];
}

abbrev set_args : RespArgs
set_args =
    string (codes "SET")
    ∷ string name
    ∷ string (codes "w")
    ∷ string (codes "px")
    ∷ string (codes "50")
    ∷ []

abbrev px_options : SetOptions
px_options = record no_options { expire_ms = some 50 }

set_args_lem :
    set_options (string (codes "px") ∷ string (codes "50") ∷ []) no_options ≡ parsed px_options
unfolding set_options arg_word arg_positive_int bytes_eq shrikedb.Facade.Resp.as_bytes
    shrikedb.Std.Text.is_utf8 shrikedb.Std.Text.to_uppercase shrikedb.Std.Integer.parse_text
set_args_lem = refl

cmd_set-Answers_example :
    Answers
      (cmd_set set_args)
      held_context
      held_db
      ok
      (λ j. if bytes_eq name j then some (from_bytes (codes "w"), some 55) else view 5 held_db j)
unfolding view run_op add_expire add_or_update Contract.find Contract.insert Contract.contains
    arg_bytes shrikedb.Facade.Resp.as_bytes CompactObj.key_eq bytes_eq CompactObj.key_bytes new_key
cmd_set-Answers_example =
    cmd_set-Answers set_args held_context held_db name (codes "w") px_options refl refl refl
      set_args_lem refl (Reachable.reachable-IsConsistent held_db-Reachable) (omega arith)

-- The number 7 with a deadline; the third argument is the least i64.
abbrev counter_args : RespArgs
counter_args = string (codes "DECRBY") ∷ string name ∷ string (codes "-9223372036854775808") ∷ []

abbrev counts_to : ℤ → Bytes → Visible
counts_to n j = if bytes_eq name j then some (CompactObj.integer n, some 100) else view 5 held_db j

incr_commands_lem_example :
    Answers (cmd_incr counter_args) held_context held_db (integer (pos 8)) (counts_to (pos 8))
    × Answers (cmd_decr counter_args) held_context held_db (integer (pos 6)) (counts_to (pos 6))
    × Answers
        (cmd_incrby counter_args)
        held_context
        held_db
        (integer (negsuc 9223372036854775800))
        (counts_to (negsuc 9223372036854775800))
    × Answers
        (cmd_decrby counter_args)
        held_context
        held_db
        (integer (negsuc 9223372036854775800))
        (counts_to (negsuc 9223372036854775800))
unfolding arg_bytes shrikedb.Facade.Resp.as_bytes view bytes_eq Contract.find run_op add_expire
    Contract.contains add_or_update Contract.insert CompactObj.key_eq CompactObj.key_bytes new_key
    CompactObj.as_integer CompactObj.is_string CompactObj.as_bytes from_bytes
    shrikedb.Std.Integer.parse_text shrikedb.Std.Integer.int_to_string shrikedb.Prelude.Int.◌+ℤ◌
    shrikedb.Prelude.Int.◌-ℤ◌
incr_commands_lem_example =
    incr_commands_lem counter_args held_context held_db name refl refl
      (Reachable.reachable-IsConsistent held_db-Reachable)

expire_sweep_lem_example :
    ((j : Bytes) → view 200 (expire_sweep 20 200 held_db).0 j ≡ view 200 held_db j)
    × IsConsistent (expire_sweep 20 200 held_db).0
    × Sweeps 20 200 held_db (expire_sweep 20 200 held_db)
expire_sweep_lem_example =
    expire_sweep_lem 20 200 held_db (Reachable.reachable-IsConsistent held_db-Reachable)

keys_lem_example :
    ((j : Bytes) → view 200 (keys (codes "*") 200 held_db).0 j ≡ view 200 held_db j)
    × IsConsistent (keys (codes "*") 200 held_db).0
keys_lem_example =
    keys_lem (codes "*") 200 held_db (Reachable.reachable-IsConsistent held_db-Reachable)

run-rounds_example :
    run
      (codes "h*o")
      (codes "hello")
      (rounds (codes "h*o") (codes "hello"))
      (start_state (codes "h*o") (codes "hello"))
    ≡ some true
unfolding shrikedb.Server.Glob.glob_match_str
run-rounds_example = run-rounds (codes "h*o") (codes "hello")

cmd_get_lem_example :
    cmd_get (string (codes "GET") ∷ string name ∷ []) held_context
    ≡ some (tt, say (bulk_string (codes "7") ∷ []) (put (find name 5 held_db).0 held_context))
unfolding arg_bytes shrikedb.Facade.Resp.as_bytes view bytes_eq Contract.find run_op add_expire
    Contract.contains add_or_update Contract.insert CompactObj.key_eq CompactObj.key_bytes new_key
    CompactObj.as_integer CompactObj.is_string CompactObj.as_bytes from_bytes
    shrikedb.Std.Integer.parse_text shrikedb.Std.Integer.int_to_string
cmd_get_lem_example =
    cmd_get_lem (string (codes "GET") ∷ string name ∷ []) held_context name held_db refl refl

ttl_ms_lem_example : (ttl_ms name 5 held_db).1 ≡ expires 95
unfolding view Contract.find run_op add_expire Contract.contains add_or_update Contract.insert
    CompactObj.key_eq bytes_eq CompactObj.key_bytes new_key
ttl_ms_lem_example = Laws.ttl_ms_lem name 5 held_db

view-add_if_absent_example :
    view 200 (add_if_absent name (from_bytes (codes "w")) 200 held_db).0 name
    ≡ some (CompactObj.string (codes "w"), none)
unfolding Contract.find run_op add_expire Contract.contains add_or_update Contract.insert
    CompactObj.key_eq bytes_eq CompactObj.key_bytes new_key view from_bytes
    shrikedb.Std.Integer.parse_text
view-add_if_absent_example =
    Laws.view-add_if_absent name 200 held_db (from_bytes (codes "w")) name (λ absent. cc)

view-rename_example :
    view 5 (rename name (codes "l") 5 held_db).0 (codes "l")
    ≡ some (CompactObj.integer (pos 7), some 100)
unfolding Contract.find run_op add_expire Contract.contains add_or_update Contract.insert
    CompactObj.key_eq bytes_eq CompactObj.key_bytes new_key from_bytes
    shrikedb.Std.Integer.parse_text shrikedb.Std.Integer.int_to_string
view-rename_example = Laws.view-rename name (codes "l") 5 held_db (codes "l")

arity_fits_lem_example : arity_fits (negsuc 2) 3 ≡ true
arity_fits_lem_example = arity_fits_lem (negsuc 2) 3 (omega arith)

arity_fits-wrapped_example : arity_fits (negsuc 2) 40000 ≡ false
arity_fits-wrapped_example =
    arity_fits-wrapped (negsuc 2) 40000 (λ e. cc) (omega arith) (omega arith)

shard-tagged_example : shard (codes "a{user}b") 8 ≡ shard (codes "{user}.c") 8
unfolding position
shard-tagged_example =
    shard-tagged (codes "user") (codes "a") (codes "b") [] (codes ".c") 8 (λ e. cc) refl refl refl

set_expire_relative-Answers_example :
    Answers
      (set_expire_relative 1000 (string (codes "EXPIRE") ∷ string name ∷ string (codes "3") ∷ []))
      held_context
      held_db
      (integer (pos 1))
      (λ j.
        if bytes_eq name j then some (CompactObj.integer (pos 7), some 3005) else view 5 held_db j)
unfolding arg_bytes arg_int shrikedb.Facade.Resp.as_bytes view bytes_eq Contract.find run_op
    add_expire Contract.contains add_or_update Contract.insert CompactObj.key_eq
    CompactObj.key_bytes new_key CompactObj.as_integer CompactObj.is_string CompactObj.as_bytes
    from_bytes shrikedb.Std.Integer.parse_text shrikedb.Std.Integer.int_to_string
set_expire_relative-Answers_example =
    set_expire_relative-Answers held_context held_db refl name
      (Reachable.reachable-IsConsistent held_db-Reachable)
      (string (codes "EXPIRE") ∷ string name ∷ string (codes "3") ∷ []) (pos 3) 1000 refl refl

set_expire_absolute-Answers_example :
    Answers
      (set_expire_absolute 1000 (string (codes "EXPIREAT") ∷ string name ∷ string (codes "3") ∷ []))
      held_context
      held_db
      (integer (pos 1))
      (λ j.
        if bytes_eq name j then some (CompactObj.integer (pos 7), some 3000) else view 5 held_db j)
unfolding arg_bytes arg_int shrikedb.Facade.Resp.as_bytes view bytes_eq Contract.find run_op
    add_expire Contract.contains add_or_update Contract.insert CompactObj.key_eq
    CompactObj.key_bytes new_key CompactObj.as_integer CompactObj.is_string CompactObj.as_bytes
    from_bytes shrikedb.Std.Integer.parse_text shrikedb.Std.Integer.int_to_string
set_expire_absolute-Answers_example =
    set_expire_absolute-Answers held_context held_db refl name
      (Reachable.reachable-IsConsistent held_db-Reachable)
      (string (codes "EXPIREAT") ∷ string name ∷ string (codes "3") ∷ []) (pos 3) 1000 refl refl

abbrev queue : Bytes
queue = codes "q"

abbrev push_args : RespArgs
push_args = string (codes "RPUSH") ∷ string queue ∷ string (codes "a") ∷ string (codes "b") ∷ []

cmd_rpush-Answers_example :
    Answers (cmd_rpush push_args) held_context held_db (integer (pos 2)) (λ j.
      if bytes_eq queue j
      then some (CompactObj.list (codes "a" ∷ codes "b" ∷ []), none)
      else view 5 held_db j)
unfolding arg_bytes arg_int shrikedb.Facade.Resp.as_bytes view bytes_eq Contract.find run_op
    add_expire Contract.contains add_or_update Contract.insert CompactObj.key_eq
    CompactObj.key_bytes new_key CompactObj.as_integer CompactObj.is_string CompactObj.as_bytes
    from_bytes shrikedb.Std.Integer.parse_text shrikedb.Std.Integer.int_to_string
cmd_rpush-Answers_example =
    cmd_rpush-Answers held_context held_db refl queue
      (Reachable.reachable-IsConsistent held_db-Reachable) push_args (codes "a" ∷ codes "b" ∷ [])
      refl refl

cmd_lpush-Answers_example :
    Answers (cmd_lpush push_args) held_context held_db (integer (pos 2)) (λ j.
      if bytes_eq queue j
      then some (CompactObj.list (codes "b" ∷ codes "a" ∷ []), none)
      else view 5 held_db j)
unfolding arg_bytes arg_int shrikedb.Facade.Resp.as_bytes view bytes_eq Contract.find run_op
    add_expire Contract.contains add_or_update Contract.insert CompactObj.key_eq
    CompactObj.key_bytes new_key CompactObj.as_integer CompactObj.is_string CompactObj.as_bytes
    from_bytes shrikedb.Std.Integer.parse_text shrikedb.Std.Integer.int_to_string
cmd_lpush-Answers_example =
    cmd_lpush-Answers held_context held_db refl queue
      (Reachable.reachable-IsConsistent held_db-Reachable) push_args (codes "a" ∷ codes "b" ∷ [])
      refl refl
