-- ===== src/Server/Router.antt =====
-- shard_thread.rs and main_service.rs: how a connection's command reaches the shards of its keys. The
-- parts of one command run one after another; each shard runs at most one of them, at the time that
-- its clock has then.
pub mod Replies
pub mod Dispatch
pub mod Snapshot
pub mod MultiGet
pub mod Sum
use shrikedb.Prelude.{
  ℕ, ◌≡◌, refl, Bool, true, false, ◌||◌, Option, none, some, List, [], ◌∷◌, ◌++◌, ◌==◌,
  if◌then◌else◌, get_elem?, set,
}
use shrikedb.Std.Bytes.{Bytes, codes, bytes_eq}
use shrikedb.Facade.Resp.{RespArgs, as_bytes}
use shrikedb.Facade.Reply.{Reply, Itoa, render_all}
use shrikedb.Server.DbSlice.{update_time}
use shrikedb.Server.Context.{Context, EngineShard}
use shrikedb.Server.Registry.{CommandEntry, CommandRegistry, dispatch}

pub data CommandType : Type 0 where
  no_keys single_key multi_key_same_handler mget mset rename global : CommandType

abbrev is_one_of : Bytes → List Bytes → Bool
is_one_of name [] = false
is_one_of name (w ∷ ws) = bytes_eq name w || is_one_of name ws

unfoldable pub classify_command : Bytes → CommandEntry → CommandType
classify_command cmd entry =
    if is_one_of cmd
      (codes "DBSIZE" ∷ codes "FLUSHDB" ∷ codes "FLUSHALL" ∷ codes "KEYS" ∷ codes "SCAN" ∷ [])
    then global
    else if entry.first_key == 0
    then no_keys
    else if is_one_of cmd (codes "DEL" ∷ codes "UNLINK" ∷ codes "EXISTS" ∷ [])
    then multi_key_same_handler
    else if bytes_eq cmd (codes "MGET")
    then mget
    else if is_one_of cmd (codes "MSET" ∷ codes "MSETNX" ∷ [])
    then mset
    else if is_one_of cmd (codes "RENAME" ∷ codes "RENAMENX" ∷ [])
    then rename
    else single_key

-- The shards of all threads, and of the connection its database and its buffer of replies.
pub record Cluster : Type 0 where
  pub shards : List EngineShard
  pub db_index : ℕ
  pub reply_buf : Bytes

abbrev pub R : Type 0 → Type 0
R A = Cluster → Option (A × Cluster)

abbrev pub pure : {A : Type 0} → A → R A
pure a s = some (a, s)

infixl 5 ◌>>=◌ ◌>>◌
abbrev pub ◌>>=◌ : {A B : Type 0} → R A → (A → R B) → R B
◌>>=◌ m f s = elim (m s) [ none ↦ none | some (a, s') ↦ f a s' ]

abbrev pub ◌>>◌ : {A B : Type 0} → R A → R B → R B
m >> n = m >>= λ _. n

-- `reply_buf.extend_from_slice`
abbrev pub extend : Bytes → R (Unit {0})
extend d s = some (tt, record s { reply_buf = s.reply_buf ++ d })

abbrev pub choose_db : ℕ → R (Unit {0})
choose_db i s = some (tt, record s { db_index = i })

-- `args[i].as_bytes().unwrap_or(b"")`; an index out of range panics.
abbrev pub or_empty : Option Bytes → Bytes
or_empty none = []
or_empty (some b) = b

abbrev pub key_at : RespArgs → ℕ → R Bytes
key_at args i s = elim (get_elem? args i) [ none ↦ none | some e ↦ some (or_empty (as_bytes e), s) ]

-- The threads: the crate itoa, the commands, the shard of the connection, the number of shards, and
-- what `now_ms` gives on each shard.
pub record Threads : Type 0 where
  pub itoa : Itoa
  pub registry : CommandRegistry
  pub shard_id : ℕ
  pub num_shards : ℕ
  pub now_ms : ℕ → ℕ

module _ (threads : Threads) where
  -- The calls of a `ReplyBuilder` on the buffer.
  unfoldable pub reply : List Reply → R (Unit {0})
  reply rs = extend (render_all threads.itoa rs)

  abbrev pub context_of : ℕ → Cluster → EngineShard → Context
  context_of sid s shard = record {
    db_index = s.db_index;
    shard = record shard { db_slice = update_time (threads.now_ms sid) shard.db_slice };
    reply = [];
  }

  -- `update_time` and `registry.dispatch` on a shard with an empty buffer: what is in the buffer then,
  -- and the database of the context.
  unfoldable pub execute : ℕ → RespArgs → R (Bytes × ℕ)
  execute sid args s = elim (get_elem? s.shards sid) [
    | none ↦ none
    | some shard ↦ elim (dispatch threads.registry args (context_of sid s shard)) [
      | none ↦ none
      | some (keep_alive, c) ↦ some (
        (render_all threads.itoa c.reply, c.db_index),
        record s { shards = set s.shards sid c.shard },
      )
    ]
  ]

  -- On the connection's own shard, whose context is the connection's.
  unfoldable pub run_local : RespArgs → R Bytes
  unfolding execute
  run_local args = do r ← execute threads.shard_id args; choose_db r.1; pure r.0

  -- A `CrossShardTask`, whose context is dropped.
  unfoldable pub run_remote : ℕ → RespArgs → R Bytes
  unfolding execute
  run_remote target args = do r ← execute target args; pure r.0

  unfoldable pub dispatch_remote : ℕ → RespArgs → R (Unit {0})
  unfolding run_remote
  dispatch_remote target args = do d ← run_remote target args; extend d

  -- On the shard of a key: the fast path or the slow path.
  unfoldable pub run_at : ℕ → RespArgs → R (Unit {0})
  unfolding run_local dispatch_remote
  run_at target args =
      if target == threads.shard_id
      then (do d ← run_local args; extend d)
      else dispatch_remote target args
