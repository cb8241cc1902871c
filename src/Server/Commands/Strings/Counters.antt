-- ===== src/Server/Commands/Strings/Counters.antt =====
-- string_family.rs: INCR, DECR, INCRBY and DECRBY.
use shrikedb.Prelude.{zero, suc, Option, none, some, ◌==◌, if◌then◌else◌}
use shrikedb.Prelude.Int.{ℤ, pos, negsuc, ◌+ℤ◌}
use shrikedb.Std.Bytes.{codes}
use shrikedb.Std.Integer.{fits_i64, i64_max}
use shrikedb.Core.CompactObj.{PrimeValue, as_integer}
use shrikedb.Core.CompactObj
use shrikedb.Facade.Resp.{RespArgs}
use shrikedb.Facade.Reply.{Reply, err, integer}
use shrikedb.Server.DbSlice.{FindResult, find, add_or_update}
use shrikedb.Server.Context.{M, ◌>>=◌, ◌>>◌, send, on, arg, arg_int}
use shrikedb.Server.Commands.Strings.{not_an_integer}

abbrev pub current : Option FindResult → Option ℤ
current none = some (pos 0)
current (some r) = as_integer r.value

abbrev pub would_overflow : Reply
would_overflow = err (codes "increment or decrement would overflow")

unfoldable pub incr_by : RespArgs → ℤ → M (Unit {0})
incr_by args delta = do
  key ← arg args 1
  r ← on (find key)
  elim (current r) [
    | none ↦ send not_an_integer
    | some n ↦
        if fits_i64 (n +ℤ delta)
        then (do
          on (add_or_update key (CompactObj.integer (n +ℤ delta)))
          send (integer (n +ℤ delta)))
        else send would_overflow
  ]

-- `-delta` wraps at the least i64.
abbrev pub neg_i64 : ℤ → ℤ
neg_i64 (pos zero) = pos zero
neg_i64 (pos (suc n)) = negsuc n
neg_i64 (negsuc n) = if n == i64_max then negsuc n else pos (suc n)

unfoldable pub cmd_incr : RespArgs → M (Unit {0})
unfolding incr_by
cmd_incr args = incr_by args (pos 1)

unfoldable pub cmd_decr : RespArgs → M (Unit {0})
unfolding incr_by
cmd_decr args = incr_by args (negsuc 0)

unfoldable pub cmd_incrby : RespArgs → M (Unit {0})
unfolding incr_by
cmd_incrby args = elim (arg_int args 2) [ none ↦ send not_an_integer | some n ↦ incr_by args n ]

unfoldable pub cmd_decrby : RespArgs → M (Unit {0})
unfolding incr_by
cmd_decrby args = elim (arg_int args 2) [
  | none ↦ send not_an_integer
  | some n ↦ incr_by args (neg_i64 n)
]
