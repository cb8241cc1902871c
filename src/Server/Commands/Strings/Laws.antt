-- ===== src/Server/Commands/Strings/Laws.antt =====
-- What the string commands do, in terms of the view of the database.
use shrikedb.Prelude.{◌≡◌, none, some, [], ◌∷◌, arith, if◌then◌else◌}
use shrikedb.Std.Bytes.{Bytes}
use shrikedb.Core.CompactObj.{is_string, as_bytes}
use shrikedb.Facade.Resp.{RespArgs}
use shrikedb.Facade.Reply.{Reply, null, wrong_type, bulk_string}
use shrikedb.Server.DbSlice.{DbTable, find}
use shrikedb.Server.DbSlice.View.{Visible, view}
use shrikedb.Server.DbSlice.Laws.{find_lem}
use shrikedb.Server.Context.{Context, ◌>>=◌, send, arg_bytes}
use shrikedb.Server.Context.Laws.{put, say, time, Selected, on_lem, arg_lem}
use shrikedb.Server.Commands.Strings.{cmd_get}

abbrev pub get_reply : Visible → Reply
get_reply none = null
get_reply (some (v, d)) = if is_string v then bulk_string (as_bytes v) else wrong_type []

pub cmd_get_lem :
    (args : RespArgs) (c : Context) (key : Bytes) (db : DbTable)
    → arg_bytes args 1 ≡ some key
    → Selected c db
    → cmd_get args c
      ≡ some (tt, say (get_reply (view (time c) db key) ∷ []) (put (find key (time c) db).0 c))
unfolding cmd_get send
cmd_get_lem args c key db ha h =
    rw (arg_lem args 1 key c ha, on_lem (find key) c db h, find_lem key (time c) db, cmd_get, ◌>>=◌)
      (ground arith)
