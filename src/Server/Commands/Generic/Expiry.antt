-- ===== src/Server/Commands/Generic/Expiry.antt =====
-- generic_family.rs: EXPIRE, PEXPIRE, EXPIREAT, PEXPIREAT, TTL, PTTL and PERSIST.
use shrikedb.Prelude.{ℕ, ◌/◌, true, false, none, some, leb}
use shrikedb.Prelude.Int.{ℤ, pos, negsuc}
use shrikedb.Std.Bytes.{Bytes}
use shrikedb.Std.Integer.{as_u64, as_i64}
use shrikedb.Facade.Resp.{RespArgs}
use shrikedb.Facade.Reply.{Reply, integer}
use shrikedb.Server.DbSlice.{
  exists, del, add_expire, remove_expire, ttl_ms, TtlResult, key_not_found, no_expiry, expires,
}
use shrikedb.Server.Context.{
  M, ◌>>=◌, ◌>>◌, send, on, now, arg, arg_int, add_u64, mul_u64, positive_u64,
}
use shrikedb.Server.Commands.Strings.{not_an_integer, flag}

-- A time that is not positive deletes the key.
unfoldable pub delete_now : Bytes → M (Unit {0})
delete_now key = do
  there ← on (exists key)
  elim there [ true ↦ do on (del key); send (integer (pos 1)) | false ↦ send (integer (pos 0)) ]

unfoldable pub set_expire_relative : ℕ → RespArgs → M (Unit {0})
unfolding delete_now
set_expire_relative multiplier args = do
  key ← arg args 1
  elim (arg_int args 2) [
    | none ↦ send not_an_integer
    | some secs ↦ elim (positive_u64 (some secs)) [
      | none ↦ delete_now key
      | some n ↦ do
        there ← on (exists key)
        elim there [
          | false ↦ send (integer (pos 0))
          | true ↦ do
            t ← now
            on (add_expire key (add_u64 t (mul_u64 n multiplier)))
            send (integer (pos 1))
        ]
    ]
  ]

-- The deadline of EXPIREAT: `(ts as u64) * multiplier`.
abbrev pub absolute_deadline : ℕ → ℤ → ℕ
absolute_deadline multiplier ts = mul_u64 (as_u64 ts) multiplier

unfoldable pub set_expire_absolute : ℕ → RespArgs → M (Unit {0})
set_expire_absolute multiplier args = do
  key ← arg args 1
  elim (arg_int args 2) [
    | none ↦ send not_an_integer
    | some ts ↦ do
      there ← on (exists key)
      elim there [
        | false ↦ send (integer (pos 0))
        | true ↦ do
          t ← now
          elim (leb (absolute_deadline multiplier ts) t) [
            | true ↦ do on (del key); send (integer (pos 1))
            | false ↦ do
              on (add_expire key (absolute_deadline multiplier ts))
              send (integer (pos 1))
          ]
      ]
  ]

unfoldable pub cmd_expire : RespArgs → M (Unit {0})
unfolding set_expire_relative
cmd_expire args = set_expire_relative 1000 args

unfoldable pub cmd_pexpire : RespArgs → M (Unit {0})
unfolding set_expire_relative
cmd_pexpire args = set_expire_relative 1 args

unfoldable pub cmd_expireat : RespArgs → M (Unit {0})
unfolding set_expire_absolute
cmd_expireat args = set_expire_absolute 1000 args

unfoldable pub cmd_pexpireat : RespArgs → M (Unit {0})
unfolding set_expire_absolute
cmd_pexpireat args = set_expire_absolute 1 args

-- The reply of TTL and PTTL, in units of `unit` milliseconds.
abbrev pub ttl_reply : ℕ → TtlResult → Reply
ttl_reply unit key_not_found = integer (negsuc 1)
ttl_reply unit no_expiry = integer (negsuc 0)
ttl_reply unit (expires ms) = integer (as_i64 (ms / unit))

unfoldable pub cmd_ttl : RespArgs → M (Unit {0})
cmd_ttl args = do key ← arg args 1; t ← on (ttl_ms key); send (ttl_reply 1000 t)

unfoldable pub cmd_pttl : RespArgs → M (Unit {0})
cmd_pttl args = do key ← arg args 1; t ← on (ttl_ms key); send (ttl_reply 1 t)

unfoldable pub cmd_persist : RespArgs → M (Unit {0})
cmd_persist args = do
  key ← arg args 1
  there ← on (exists key)
  elim there [
    | false ↦ send (integer (pos 0))
    | true ↦ do removed ← on (remove_expire key); send (integer (flag removed))
  ]
