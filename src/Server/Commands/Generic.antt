-- ===== src/Server/Commands/Generic.antt =====
-- generic_family.rs. `Expiry` has the commands on deadlines, `Keyspace` those on whole databases
-- and `Connection` those that answer without a key.
pub mod Expiry
pub mod Expire
pub mod Exists
pub mod Keyspace
pub mod Connection
use shrikedb.Prelude.{ℕ, ◌+◌, Bool, true, false, Option, none, some, List, [], ◌∷◌, if◌then◌else◌}
use shrikedb.Prelude.Int.{ℤ, pos}
use shrikedb.Std.Bytes.{Bytes, codes}
use shrikedb.Core.CompactObj.{type_name}
use shrikedb.Facade.Resp.{RespArgs}
use shrikedb.Facade.Reply.{Reply, ok, err, integer, simple_string}
use shrikedb.Server.DbSlice.{DbTable, find, exists, del, rename}
use shrikedb.Server.Context.{M, ◌>>=◌, ◌>>◌, pure, send, on, arg, all_bytes, tail}

-- How many of the keys an operation answers `true` for.
count_keys : (Bytes → ℕ → DbTable → DbTable × Bool) → List Bytes → ℕ → M ℕ
count_keys f [] n = pure n
count_keys f (key ∷ keys) n = do hit ← on (f key); count_keys f keys (if hit then n + 1 else n)

unfoldable pub cmd_del : RespArgs → M (Unit {0})
unfolding count_keys
cmd_del args = do keys ← all_bytes (tail args); n ← count_keys del keys 0; send (integer (pos n))

unfoldable pub cmd_exists : RespArgs → M (Unit {0})
unfolding count_keys
cmd_exists args = do
  keys ← all_bytes (tail args)
  n ← count_keys exists keys 0
  send (integer (pos n))

unfoldable pub cmd_type : RespArgs → M (Unit {0})
cmd_type args = do
  key ← arg args 1
  r ← on (find key)
  elim r [
    | none ↦ send (simple_string (codes "none"))
    | some r ↦ send (simple_string (type_name r.value))
  ]

unfoldable pub cmd_rename : RespArgs → M (Unit {0})
cmd_rename args = do
  from ← arg args 1
  to ← arg args 2
  moved ← on (rename from to)
  send (if moved then ok else err (codes "no such key"))

unfoldable pub cmd_renamenx : RespArgs → M (Unit {0})
cmd_renamenx args = do
  from ← arg args 1
  to ← arg args 2
  there ← on (exists from)
  elim there [
    | false ↦ send (err (codes "no such key"))
    | true ↦ do
      taken ← on (exists to)
      elim taken [
        | true ↦ send (integer (pos 0))
        | false ↦ do on (rename from to); send (integer (pos 1))
      ]
  ]
