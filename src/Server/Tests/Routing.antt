-- ===== src/Server/Tests/Routing.antt =====
-- Replies of a shard, read back, with the text of `to_string` for the crate itoa.
use shrikedb.Prelude.{
  ℕ, zero, suc, ◌≡◌, refl, Bool-cases, inl, inr, none, some, [], ◌∷◌, if◌then◌else◌, arith,
}
use shrikedb.Prelude.Int.{pos, negsuc}
use shrikedb.Std.Bytes.{Bytes, codes, bytes_eq}
use shrikedb.Std.Text.{is_utf8, to_ascii_uppercase}
use shrikedb.Std.Integer.{int_to_string}
use shrikedb.Core.CompactObj
use shrikedb.Core.CompactObj.{from_bytes, new_key}
use shrikedb.Core.Contract
use shrikedb.Facade.Resp.{RespArgs, string}
use shrikedb.Facade.Reply.{Itoa, integer, null, bulk_string, array_len, render_all}
use shrikedb.Server.DbSlice.{DbTable, new_table, add_or_update, add_expire}
use shrikedb.Server.DbSlice.View.{Visible, view}
use shrikedb.Server.DbSlice.Laws.{view-add_or_update}
use shrikedb.Server.DbSlice.Reachable
use shrikedb.Server.DbSlice.Reachable.{run_op, op_add_or_update, step, start}
use shrikedb.Server.Context.{EngineShard, M}
use shrikedb.Server.Commands.Generic.{cmd_exists}
use shrikedb.Server.Commands.Strings.{cmd_mget}
use shrikedb.Server.Commands.Strings.MultiGet.{bytes_seen}
use shrikedb.Server.Registry.{CommandEntry, CommandRegistry}
use shrikedb.Server.Sharding.{shard}
use shrikedb.Server.Router.{Threads, Cluster}
use shrikedb.Server.Router.Replies.{parse_resp_array}
use shrikedb.Server.Router.Replies.Laws.{ValueIsShort, parse_resp_array-render}
use shrikedb.Server.Router.Dispatch.Parts.{dispatch_mget, dispatch_multi_key_sum}
use shrikedb.Server.Router.MultiGet.{dispatch_mget-Answered}
use shrikedb.Server.Router.Sum.{dispatch_multi_key_sum-Answered}
use shrikedb.Server.Router.Dispatch.Serves.{HasCommand, AllShow, Answered}
use shrikedb.Server.Tests.{name}

abbrev pub plain_itoa : Itoa
plain_itoa = record { format = int_to_string; format_lem = λ n h. refl }

parse_resp_array-render_example :
    parse_resp_array (render_all plain_itoa (array_len 2 ∷ bulk_string (codes "$-1") ∷ null ∷ []))
    ≡ some (some (codes "$-1") ∷ none ∷ [])
parse_resp_array-render_example =
    parse_resp_array-render plain_itoa (some (codes "$-1") ∷ none ∷ []) (omega arith)
      (omega arith, (tt, tt))

abbrev key_entry : Bytes → (RespArgs → M (Unit {0})) → CommandEntry
key_entry name handler = record {
  name = name;
  handler = handler;
  arity = negsuc 1;
  first_key = 1;
  last_key = negsuc 0;
  key_step = 1;
}

abbrev two_commands : CommandRegistry
two_commands =
    (codes "EXISTS", key_entry (codes "EXISTS") cmd_exists)
    ∷ (codes "MGET", key_entry (codes "MGET") cmd_mget)
    ∷ []

-- Two shards, of which the first has the connection, the second the key.
abbrev two_threads : Threads
two_threads = record {
  itoa = plain_itoa;
  registry = two_commands;
  shard_id = 0;
  num_shards = 2;
  now_ms = λ sid. 5;
}

abbrev one_key : DbTable
one_key = run_op (op_add_or_update name (from_bytes (codes "7"))) 5 new_table

abbrev shard_with : DbTable → EngineShard
shard_with db = record { db_slice = record { dbs = db ∷ []; now_ms = 0 }; commands_processed = 0 }

abbrev two_shards : DbTable → DbTable → Cluster
two_shards first second = record {
  shards = shard_with first ∷ shard_with second ∷ [];
  db_index = 0;
  reply_buf = [];
}

abbrev two_views : ℕ → Bytes → Visible
two_views zero key = none
two_views (suc sid) key =
    if bytes_eq name key then some (CompactObj.integer (pos 7), none) else none

two_views-IsShort : (sid : ℕ) (key : Bytes) → ValueIsShort (bytes_seen (two_views sid key))
unfolding CompactObj.is_string CompactObj.as_bytes shrikedb.Std.Integer.int_to_string
two_views-IsShort zero key = tt
two_views-IsShort (suc sid) key = elim (Bool-cases (bytes_eq name key)) [
  | inl e ↦ rw e (omega arith)
  | inr e ↦ rw e tt
]

two_shards-AllShow : AllShow two_threads (two_shards new_table one_key) two_views
unfolding view run_op add_expire add_or_update Contract.find Contract.insert Contract.contains
    CompactObj.key_eq bytes_eq CompactObj.key_bytes new_key CompactObj.is_string CompactObj.as_bytes
    from_bytes shrikedb.Std.Integer.parse_text shrikedb.Std.Integer.int_to_string
two_shards-AllShow zero h = (
  shard_with new_table,
  refl,
  record {
    table = new_table;
    selected = refl;
    consistent = Reachable.reachable-IsConsistent start;
    sees = λ key. refl;
  },
)
two_shards-AllShow (suc zero) h = (
  shard_with one_key,
  refl,
  record {
    table = one_key;
    selected = refl;
    consistent =
        Reachable.reachable-IsConsistent
          (step (op_add_or_update name (from_bytes (codes "7"))) 5 start);
    sees = λ key. view-add_or_update name 5 new_table (from_bytes (codes "7")) key;
  },
)
two_shards-AllShow (suc (suc sid)) h = absurd (omega arith)

two_commands-HasMget : HasCommand two_commands (codes "MGET") cmd_mget
unfolding Contract.find bytes_eq is_utf8 to_ascii_uppercase
two_commands-HasMget = record {
  entry = key_entry (codes "MGET") cmd_mget;
  text = refl;
  upper = refl;
  stays = refl;
  found = refl;
  handler_lem = refl;
  arity = refl;
}

two_commands-HasExists : HasCommand two_commands (codes "EXISTS") cmd_exists
unfolding Contract.find bytes_eq is_utf8 to_ascii_uppercase
two_commands-HasExists = record {
  entry = key_entry (codes "EXISTS") cmd_exists;
  text = refl;
  upper = refl;
  stays = refl;
  found = refl;
  handler_lem = refl;
  arity = refl;
}

dispatch_mget-Answered_example :
    Answered two_threads
      (two_shards new_table one_key)
      (array_len 3 ∷ null ∷ bulk_string (codes "7") ∷ null ∷ [])
      two_views
      (dispatch_mget two_threads
        (string (codes "MGET") ∷ string (codes "f") ∷ string name ∷ string (codes "j") ∷ []))
unfolding Contract.find bytes_eq shard CompactObj.is_string CompactObj.as_bytes
    shrikedb.Std.Integer.int_to_string
dispatch_mget-Answered_example =
    dispatch_mget-Answered two_threads (omega arith) two_commands-HasMget two_views
      two_views-IsShort
      (string (codes "MGET") ∷ string (codes "f") ∷ string name ∷ string (codes "j") ∷ [])
      (codes "f" ∷ name ∷ codes "j" ∷ []) refl (omega arith) (two_shards new_table one_key)
      two_shards-AllShow

dispatch_multi_key_sum-Answered_example :
    Answered two_threads (two_shards new_table one_key) (integer (pos 2) ∷ []) two_views (
      dispatch_multi_key_sum two_threads
        (string (codes "EXISTS") ∷ string name ∷ string (codes "f") ∷ string name ∷ []))
unfolding shard bytes_eq
dispatch_multi_key_sum-Answered_example =
    dispatch_multi_key_sum-Answered two_threads (omega arith) two_commands-HasExists two_views
      (name ∷ codes "f" ∷ name ∷ []) (omega arith) (two_shards new_table one_key) two_shards-AllShow
