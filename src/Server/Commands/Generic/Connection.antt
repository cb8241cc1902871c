-- ===== src/Server/Commands/Generic/Connection.antt =====
-- generic_family.rs: the commands that answer without a key, and SELECT and RESET.
use shrikedb.Prelude.{ℕ, Option, none, some, [], ◌∷◌, ltb, if◌then◌else◌, length}
use shrikedb.Prelude.Int.{ℤ, pos, negsuc}
use shrikedb.Std.Bytes.{codes, bytes_eq}
use shrikedb.Facade.Resp.{RespArgs}
use shrikedb.Facade.Reply.{ok, pong, null, err, integer, bulk_string, array_len, simple_string}
use shrikedb.Server.DbSlice.{num_dbs}
use shrikedb.Server.Context.{M, ◌>>=◌, ◌>>◌, send, send_all, select, arg, arg_int, arg_word}

unfoldable pub cmd_ping : RespArgs → M (Unit {0})
cmd_ping args =
    if ltb 1 (length args) then (do msg ← arg args 1; send (bulk_string msg)) else send pong

unfoldable pub cmd_echo : RespArgs → M (Unit {0})
cmd_echo args = do msg ← arg args 1; send (bulk_string msg)

unfoldable pub cmd_command : RespArgs → M (Unit {0})
cmd_command args = send (array_len 0)

out_of_range : M (Unit {0})
out_of_range = send (err (codes "DB index is out of range"))

abbrev db_number : Option ℤ → Option ℕ
db_number none = none
db_number (some (negsuc n)) = none
db_number (some (pos n)) = if ltb n num_dbs then some n else none

unfoldable pub cmd_select : RespArgs → M (Unit {0})
unfolding out_of_range
cmd_select args = elim (db_number (arg_int args 1)) [
  | none ↦ out_of_range
  | some n ↦ do select n; send ok
]

-- The protocol version of HELLO has no effect.
unfoldable pub cmd_hello : RespArgs → M (Unit {0})
cmd_hello args = send_all (
    array_len 14
    ∷ bulk_string (codes "server")
    ∷ bulk_string (codes "shrikedb")
    ∷ bulk_string (codes "version")
    ∷ bulk_string (codes "0.1.0")
    ∷ bulk_string (codes "proto")
    ∷ integer (pos 2)
    ∷ bulk_string (codes "id")
    ∷ integer (pos 1)
    ∷ bulk_string (codes "mode")
    ∷ bulk_string (codes "standalone")
    ∷ bulk_string (codes "role")
    ∷ bulk_string (codes "master")
    ∷ bulk_string (codes "modules")
    ∷ array_len 0
    ∷ [])

unfoldable pub cmd_client : RespArgs → M (Unit {0})
cmd_client args =
    let sub = arg_word args 1 in
    send (
      if bytes_eq sub (codes "SETNAME")
      then ok
      else if bytes_eq sub (codes "GETNAME")
      then null
      else if bytes_eq sub (codes "INFO")
      then bulk_string (codes "id=1 fd=0 name= db=0\r\n")
      else if bytes_eq sub (codes "ID")
      then integer (pos 1)
      else ok)

unfoldable pub cmd_config : RespArgs → M (Unit {0})
cmd_config args =
    let sub = arg_word args 1 in
    send (
      if bytes_eq sub (codes "GET")
      then array_len 0
      else if bytes_eq sub (codes "SET")
      then ok
      else if bytes_eq sub (codes "RESETSTAT")
      then ok
      else err (codes "unsupported CONFIG subcommand"))

unfoldable pub cmd_reset : RespArgs → M (Unit {0})
cmd_reset args = do select 0; send (simple_string (codes "RESET"))
