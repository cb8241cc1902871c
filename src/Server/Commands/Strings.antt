-- ===== src/Server/Commands/Strings.antt =====
-- string_family.rs. `Options` has the handlers with option words, `Ranges` those on parts of a
-- string and `Counters` the integers.
pub mod Options
pub mod Ranges
pub mod Counters
pub mod Laws
pub mod SetParts
pub mod Set
pub mod IncrBy
pub mod Exchange
pub mod MultiGet
use shrikedb.Prelude.{
  ℕ, zero, suc, ◌+◌, ◌-◌, ◌≡◌, refl, Bool, true, false, ◌&&◌, not, Option, none, some, List, [],
  ◌∷◌, if◌then◌else◌, length,
}
use shrikedb.Prelude.Int.{ℤ, pos, negsuc, ◌+ℤ◌}
use shrikedb.Std.Bytes.{Bytes, codes, bytes_eq}
use shrikedb.Std.Integer.{fits_i64, as_i64}
use shrikedb.Core.CompactObj.{PrimeValue, is_string, as_bytes, as_integer, strlen, from_bytes}
use shrikedb.Core.CompactObj
use shrikedb.Facade.Resp.{RespArgs}
use shrikedb.Facade.Reply.{Reply, ok, null, err, wrong_type, bulk_string, integer, array_len}
use shrikedb.Server.DbSlice.{
  FindResult, find, exists, add_or_update, add_if_absent, del, add_expire, remove_expire, ttl_ms,
  TtlResult, expires,
}
use shrikedb.Server.Context.{
  M, ◌>>=◌, ◌>>◌, pure, panic, send, on, now, arg, arg_int, arg_word, arg_positive_int, add_u64,
  mul_u64, all_bytes, tail,
}

abbrev pub not_an_integer : Reply
not_an_integer = err (codes "value is not an integer or out of range")

-- The replies of a read: `string` for a string, and an error or another reply otherwise.
abbrev pub string_or : Option FindResult → (Bytes → M (Unit {0})) → M (Unit {0}) → M (Unit {0})
string_or none found missing = missing
string_or (some r) found missing =
    if is_string r.value then found (as_bytes r.value) else send (wrong_type [])

unfoldable pub cmd_get : RespArgs → M (Unit {0})
cmd_get args = do
  key ← arg args 1
  r ← on (find key)
  string_or r (λ v. send (bulk_string v)) (send null)

abbrev pub flag : Bool → ℤ
flag true = pos 1
flag false = pos 0

unfoldable pub cmd_setnx : RespArgs → M (Unit {0})
cmd_setnx args = do
  key ← arg args 1
  value ← arg args 2
  added ← on (add_if_absent key (from_bytes value))
  send (integer (flag added))

-- The common body of SETEX and PSETEX; the time is in units of `scale` milliseconds.
set_with_time : ℕ → RespArgs → M (Unit {0})
set_with_time scale args = do
  key ← arg args 1
  elim (arg_positive_int args 2) [
    | none ↦ send not_an_integer
    | some n ↦ do
      value ← arg args 3
      on (add_or_update key (from_bytes value))
      t ← now
      on (add_expire key (add_u64 t (mul_u64 n scale)))
      send ok
  ]

unfoldable pub cmd_setex : RespArgs → M (Unit {0})
unfolding set_with_time
cmd_setex args = set_with_time 1000 args

unfoldable pub cmd_psetex : RespArgs → M (Unit {0})
unfolding set_with_time
cmd_psetex args = set_with_time 1 args

abbrev pub mget_reply : Option FindResult → M (Unit {0})
mget_reply none = send null
mget_reply (some r) = if is_string r.value then send (bulk_string (as_bytes r.value)) else send null

unfoldable mget_all : List Bytes → M (Unit {0})
mget_all [] = pure tt
mget_all (key ∷ keys) = do r ← on (find key); mget_reply r; mget_all keys

unfoldable pub cmd_mget : RespArgs → M (Unit {0})
unfolding mget_all
cmd_mget args = do keys ← all_bytes (tail args); send (array_len (length keys)); mget_all keys

abbrev pub pairs : List Bytes → List (Bytes × Bytes)
pairs (k ∷ v ∷ rest) = (k, v) ∷ pairs rest
pairs _ = []

abbrev pub even : ℕ → Bool
even zero = true
even (suc n) = not (even n)

mset_all : List (Bytes × Bytes) → M (Unit {0})
mset_all [] = pure tt
mset_all ((k, v) ∷ rest) = do
  on (add_or_update k (from_bytes v))
  on (remove_expire k)
  mset_all rest

unfoldable pub cmd_mset : RespArgs → M (Unit {0})
unfolding mset_all
cmd_mset args =
    if even (length args - 1)
    then (do words ← all_bytes (tail args); mset_all (pairs words); send ok)
    else send (err (codes "wrong number of arguments for 'mset' command"))

-- The first loop of MSETNX: does any of the keys exist?
any_exists : List (Bytes × Bytes) → M Bool
any_exists [] = pure false
any_exists ((k, v) ∷ rest) = do
  e ← on (exists k)
  elim e [ true ↦ pure true | false ↦ any_exists rest ]

add_all : List (Bytes × Bytes) → M (Unit {0})
add_all [] = pure tt
add_all ((k, v) ∷ rest) = do on (add_or_update k (from_bytes v)); add_all rest

unfoldable pub cmd_msetnx : RespArgs → M (Unit {0})
unfolding any_exists add_all
cmd_msetnx args =
    if even (length args - 1)
    then (do
      words ← all_bytes (tail args)
      taken ← any_exists (pairs words)
      elim taken [
        | true ↦ send (integer (pos 0))
        | false ↦ do add_all (pairs words); send (integer (pos 1))
      ])
    else send (err (codes "wrong number of arguments for 'msetnx' command"))

-- The old value, as GETSET and SET with GET send it.
abbrev pub bulk_or_null : Option Bytes → Reply
bulk_or_null none = null
bulk_or_null (some v) = bulk_string v

unfoldable pub cmd_getset : RespArgs → M (Unit {0})
cmd_getset args = do
  key ← arg args 1
  value ← arg args 2
  r ← on (find key)
  let replace : Option Bytes → M (Unit {0}) = λ old. (do
    on (add_or_update key (from_bytes value))
    on (remove_expire key)
    send (bulk_or_null old))
  string_or r (λ v. replace (some v)) (replace none)

unfoldable pub cmd_getdel : RespArgs → M (Unit {0})
cmd_getdel args = do
  key ← arg args 1
  r ← on (find key)
  string_or r (λ v. (do send (bulk_string v); on (del key); pure tt)) (send null)

unfoldable pub cmd_strlen : RespArgs → M (Unit {0})
cmd_strlen args = do
  key ← arg args 1
  r ← on (find key)
  elim r [
    | none ↦ send (integer (pos 0))
    | some r ↦
        if is_string r.value then send (integer (as_i64 (strlen r.value))) else send (wrong_type [])
  ]
