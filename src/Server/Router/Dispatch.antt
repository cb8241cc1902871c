-- ===== src/Server/Router/Dispatch.antt =====
-- shard_thread.rs: `dispatch_command` and the commands that several shards share.
pub mod Parts
pub mod Runs
pub mod Serves
use shrikedb.Prelude.{
  ℕ, zero, suc, ◌+◌, ◌≡◌, refl, Bool, true, false, not, ◌||◌, Option, none, some, List, [], ◌∷◌,
  ◌++◌, ltb, ◌==◌, if◌then◌else◌, length,
}
use shrikedb.Prelude.Int.{ℤ, pos}
use shrikedb.Std.Bytes.{Bytes, codes, bytes_eq}
use shrikedb.Std.Text.{is_utf8, to_ascii_uppercase}
use shrikedb.Std.Integer.{parse_u64}
use shrikedb.Core.Key.{bytes_key}
use shrikedb.Core.Contract
use shrikedb.Facade.Resp.{RespExpr, RespArgs, as_bytes}
use shrikedb.Facade.Reply.{Reply, ok, err}
use shrikedb.Server.Registry.{CommandEntry, arity_fits, wrong_arity, unknown_command}
use shrikedb.Server.Sharding.{shard}
use shrikedb.Server.Router.{
  CommandType, no_keys, single_key, multi_key_same_handler, mget, mset, rename, global,
  classify_command, Threads, R, pure, ◌>>=◌, ◌>>◌, extend, choose_db, key_at, reply, run_local,
  run_at,
}
use shrikedb.Server.Router.Dispatch.Parts.{
  dispatch_multi_key_sum, dispatch_mget, dispatch_mset, dispatch_global,
}

-- `parse::<u16>()` and `n < 16`.
abbrev database : Option ℕ → Option ℕ
database none = none
database (some n) = if ltb n 16 then some n else none

abbrev text_of : Option Bytes → Option ℕ
text_of none = none
text_of (some b) = if is_utf8 b then database (parse_u64 b) else none

module _ (threads : Threads) where
  unfoldable pub handle_select : RespArgs → R Bool
  unfolding reply
  handle_select (e ∷ index ∷ []) = elim (text_of (as_bytes index)) [
    | none ↦ do reply threads (err (codes "DB index is out of range") ∷ []); pure true
    | some n ↦ do choose_db n; reply threads (ok ∷ []); pure true
  ]
  handle_select args = do
    reply threads (err (codes "wrong number of arguments for 'select' command") ∷ [])
    pure true

  unfoldable pub dispatch_rename : RespArgs → R (Unit {0})
  unfolding reply run_at
  dispatch_rename args = do
    from ← key_at args 1
    to ← key_at args 2
    let s1 = shard from threads.num_shards in
        let s2 = shard to threads.num_shards in
        if s1 == s2
        then run_at threads s1 args
        else reply threads
            (err (codes "CROSSSLOT Keys in request don't hash to the same slot") ∷ [])

  -- The last `match` of `dispatch_command`.
  unfoldable pub route : CommandType → Bytes → CommandEntry → RespArgs → R (Unit {0})
  unfolding run_local run_at dispatch_multi_key_sum dispatch_mget dispatch_mset dispatch_rename
      dispatch_global
  route no_keys cmd entry args = do d ← run_local threads args; extend d
  route single_key cmd entry args = do
    key ← key_at args entry.first_key
    run_at threads (shard key threads.num_shards) args
  route multi_key_same_handler cmd entry args = dispatch_multi_key_sum threads args
  route mget cmd entry args = dispatch_mget threads args
  route mset cmd entry args = dispatch_mset threads cmd args
  route rename cmd entry args = dispatch_rename args
  route global cmd entry args = dispatch_global threads cmd args

  unfoldable pub dispatch_entry : Bytes → RespArgs → Option CommandEntry → R Bool
  unfolding reply route classify_command
  dispatch_entry cmd args none = do reply threads (unknown_command cmd ∷ []); pure true
  dispatch_entry cmd args (some entry) =
      if arity_fits entry.arity (length args)
      then (do route (classify_command cmd entry) cmd entry args; pure true)
      else (do reply threads (wrong_arity cmd ∷ []); pure true)

  unfoldable pub dispatch_word : Bytes → RespArgs → R Bool
  unfolding reply handle_select dispatch_entry
  dispatch_word cmd args =
      if not (is_utf8 cmd)
      then (do reply threads (err (codes "invalid command encoding") ∷ []); pure true)
      else if bytes_eq cmd (codes "QUIT")
      then (do reply threads (ok ∷ []); pure false)
      else if bytes_eq cmd (codes "SELECT")
      then handle_select args
      else if bytes_eq cmd (codes "SAVE") || bytes_eq cmd (codes "BGSAVE")
      then (do
        reply threads (err (codes "SAVE/BGSAVE must be issued via the control interface") ∷ [])
        pure true)
      else dispatch_entry cmd args (Contract.find cmd threads.registry)

  -- `false` if the connection should close.
  unfoldable pub dispatch_command : RespArgs → R Bool
  unfolding reply dispatch_word
  dispatch_command [] = do reply threads (err (codes "empty command") ∷ []); pure true
  dispatch_command (e ∷ args) = elim (as_bytes e) [
    | none ↦ do reply threads (err (codes "invalid command") ∷ []); pure true
    | some b ↦ dispatch_word (to_ascii_uppercase b) (e ∷ args)
  ]
