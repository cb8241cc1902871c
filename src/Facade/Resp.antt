-- ===== src/Facade/Resp.antt =====
-- resp_parser.rs: the expressions of RESP.
use shrikedb.Prelude.{Option, none, some, List}
use shrikedb.Prelude.Int.{ℤ}
use shrikedb.Std.Bytes.{Bytes}

mutual
  pub data RespExpr : Type 0 where
    string : Bytes → RespExpr
    int : ℤ → RespExpr
    nil : RespExpr
    error : Bytes → RespExpr
    array : RespItems → RespExpr

  pub data RespItems : Type 0 where
    end : RespItems
    item : RespExpr → RespItems → RespItems

abbrev pub RespArgs : Type 0
RespArgs = List RespExpr

-- `RespExpr::as_bytes`
unfoldable pub as_bytes : RespExpr → Option Bytes
as_bytes (string b) = some b
as_bytes _ = none
