-- ===== src/Server/Registry/Families.antt =====
-- `register` of the command families, and `build_command_registry` of main_service.rs.
use shrikedb.Prelude.{ℕ, List, [], ◌∷◌, ltb, if◌then◌else◌}
use shrikedb.Prelude.Int.{ℤ, pos, negsuc}
use shrikedb.Std.Bytes.{Bytes, codes}
use shrikedb.Facade.Resp.{RespArgs}
use shrikedb.Server.Context.{M}
use shrikedb.Server.Registry.{CommandEntry, CommandRegistry, register}
use shrikedb.Server.Commands.Strings.{
  cmd_get, cmd_setnx, cmd_setex, cmd_psetex, cmd_mget, cmd_mset, cmd_msetnx, cmd_getset, cmd_getdel,
  cmd_strlen,
}
use shrikedb.Server.Commands.Strings.Options.{cmd_set, cmd_getex}
use shrikedb.Server.Commands.Strings.Counters.{cmd_incr, cmd_decr, cmd_incrby, cmd_decrby}
use shrikedb.Server.Commands.Strings.Ranges.{cmd_append, cmd_getrange, cmd_setrange}
use shrikedb.Server.Commands.Generic.{cmd_del, cmd_exists, cmd_type, cmd_rename, cmd_renamenx}
use shrikedb.Server.Commands.Generic.Expiry.{
  cmd_expire, cmd_pexpire, cmd_expireat, cmd_pexpireat, cmd_ttl, cmd_pttl, cmd_persist,
}
use shrikedb.Server.Commands.Generic.Keyspace.{
  cmd_keys, cmd_scan, cmd_randomkey, cmd_dbsize, cmd_flushdb, cmd_flushall, cmd_info,
}
use shrikedb.Server.Commands.Generic.Connection.{
  cmd_ping, cmd_echo, cmd_command, cmd_select, cmd_hello, cmd_client, cmd_config, cmd_reset,
}
use shrikedb.Server.Commands.Lists.Commands.{
  cmd_lpush, cmd_rpush, cmd_lpop, cmd_rpop, cmd_llen, cmd_lrange, cmd_lindex, cmd_lset, cmd_lrem,
  cmd_ltrim, cmd_linsert,
}
use shrikedb.Server.Commands.Sets.{
  cmd_sadd, cmd_srem, cmd_smembers, cmd_sismember, cmd_smismember, cmd_scard, cmd_srandmember,
  cmd_spop, cmd_sinter, cmd_sunion, cmd_sdiff,
}
use shrikedb.Server.Commands.Hashes.{
  cmd_hset, cmd_hget, cmd_hdel, cmd_hexists, cmd_hgetall, cmd_hkeys, cmd_hvals, cmd_hlen, cmd_hmset,
  cmd_hmget, cmd_hincrby, cmd_hsetnx,
}

abbrev entry : Bytes → (RespArgs → M (Unit {0})) → ℤ → ℕ → CommandEntry
entry name handler arity first_key = record {
  name = name;
  handler = handler;
  arity = arity;
  first_key = first_key;
  last_key = if ltb 0 first_key then pos 1 else pos 0;
  key_step = 1;
}

register_all : List CommandEntry → CommandRegistry → CommandRegistry
register_all [] r = r
register_all (e ∷ es) r = register_all es (register e r)

-- An arity of -n is `negsuc (n - 1)`.
unfoldable pub generic_family : CommandRegistry → CommandRegistry
unfolding register_all
generic_family = register_all (
    entry (codes "PING") cmd_ping (negsuc 0) 0
    ∷ entry (codes "ECHO") cmd_echo (pos 2) 0
    ∷ entry (codes "COMMAND") cmd_command (negsuc 0) 0
    ∷ entry (codes "INFO") cmd_info (negsuc 0) 0
    ∷ entry (codes "SELECT") cmd_select (pos 2) 0
    ∷ entry (codes "DBSIZE") cmd_dbsize (pos 1) 0
    ∷ entry (codes "FLUSHDB") cmd_flushdb (negsuc 0) 0
    ∷ entry (codes "FLUSHALL") cmd_flushall (negsuc 0) 0
    ∷ entry (codes "DEL") cmd_del (negsuc 1) 1
    ∷ entry (codes "UNLINK") cmd_del (negsuc 1) 1
    ∷ entry (codes "EXISTS") cmd_exists (negsuc 1) 1
    ∷ entry (codes "TYPE") cmd_type (pos 2) 1
    ∷ entry (codes "RENAME") cmd_rename (pos 3) 1
    ∷ entry (codes "RENAMENX") cmd_renamenx (pos 3) 1
    ∷ entry (codes "EXPIRE") cmd_expire (pos 3) 1
    ∷ entry (codes "PEXPIRE") cmd_pexpire (pos 3) 1
    ∷ entry (codes "EXPIREAT") cmd_expireat (pos 3) 1
    ∷ entry (codes "PEXPIREAT") cmd_pexpireat (pos 3) 1
    ∷ entry (codes "TTL") cmd_ttl (pos 2) 1
    ∷ entry (codes "PTTL") cmd_pttl (pos 2) 1
    ∷ entry (codes "PERSIST") cmd_persist (pos 2) 1
    ∷ entry (codes "KEYS") cmd_keys (pos 2) 0
    ∷ entry (codes "SCAN") cmd_scan (negsuc 1) 0
    ∷ entry (codes "RANDOMKEY") cmd_randomkey (pos 1) 0
    ∷ entry (codes "HELLO") cmd_hello (negsuc 0) 0
    ∷ entry (codes "CLIENT") cmd_client (negsuc 1) 0
    ∷ entry (codes "CONFIG") cmd_config (negsuc 1) 0
    ∷ entry (codes "RESET") cmd_reset (pos 1) 0
    ∷ [])

-- The handler of INCRBYFLOAT, which computes with floating-point numbers, is an argument.
unfoldable pub string_family : (RespArgs → M (Unit {0})) → CommandRegistry → CommandRegistry
unfolding register_all
string_family cmd_incrbyfloat = register_all (
    entry (codes "GET") cmd_get (pos 2) 1
    ∷ entry (codes "SET") cmd_set (negsuc 2) 1
    ∷ entry (codes "SETNX") cmd_setnx (pos 3) 1
    ∷ entry (codes "SETEX") cmd_setex (pos 4) 1
    ∷ entry (codes "PSETEX") cmd_psetex (pos 4) 1
    ∷ entry (codes "MGET") cmd_mget (negsuc 1) 1
    ∷ entry (codes "MSET") cmd_mset (negsuc 2) 1
    ∷ entry (codes "MSETNX") cmd_msetnx (negsuc 2) 1
    ∷ entry (codes "GETSET") cmd_getset (pos 3) 1
    ∷ entry (codes "GETDEL") cmd_getdel (pos 2) 1
    ∷ entry (codes "GETEX") cmd_getex (negsuc 1) 1
    ∷ entry (codes "INCR") cmd_incr (pos 2) 1
    ∷ entry (codes "DECR") cmd_decr (pos 2) 1
    ∷ entry (codes "INCRBY") cmd_incrby (pos 3) 1
    ∷ entry (codes "DECRBY") cmd_decrby (pos 3) 1
    ∷ entry (codes "INCRBYFLOAT") cmd_incrbyfloat (pos 3) 1
    ∷ entry (codes "APPEND") cmd_append (pos 3) 1
    ∷ entry (codes "STRLEN") cmd_strlen (pos 2) 1
    ∷ entry (codes "GETRANGE") cmd_getrange (pos 4) 1
    ∷ entry (codes "SETRANGE") cmd_setrange (pos 4) 1
    ∷ [])

unfoldable pub list_family : CommandRegistry → CommandRegistry
unfolding register_all
list_family = register_all (
    entry (codes "LPUSH") cmd_lpush (negsuc 2) 1
    ∷ entry (codes "RPUSH") cmd_rpush (negsuc 2) 1
    ∷ entry (codes "LPOP") cmd_lpop (negsuc 1) 1
    ∷ entry (codes "RPOP") cmd_rpop (negsuc 1) 1
    ∷ entry (codes "LLEN") cmd_llen (pos 2) 1
    ∷ entry (codes "LRANGE") cmd_lrange (pos 4) 1
    ∷ entry (codes "LINDEX") cmd_lindex (pos 3) 1
    ∷ entry (codes "LSET") cmd_lset (pos 4) 1
    ∷ entry (codes "LREM") cmd_lrem (pos 4) 1
    ∷ entry (codes "LTRIM") cmd_ltrim (pos 4) 1
    ∷ entry (codes "LINSERT") cmd_linsert (pos 5) 1
    ∷ [])

unfoldable pub set_family : CommandRegistry → CommandRegistry
unfolding register_all
set_family = register_all (
    entry (codes "SADD") cmd_sadd (negsuc 2) 1
    ∷ entry (codes "SREM") cmd_srem (negsuc 2) 1
    ∷ entry (codes "SMEMBERS") cmd_smembers (pos 2) 1
    ∷ entry (codes "SISMEMBER") cmd_sismember (pos 3) 1
    ∷ entry (codes "SMISMEMBER") cmd_smismember (negsuc 2) 1
    ∷ entry (codes "SCARD") cmd_scard (pos 2) 1
    ∷ entry (codes "SRANDMEMBER") cmd_srandmember (negsuc 1) 1
    ∷ entry (codes "SPOP") cmd_spop (negsuc 1) 1
    ∷ entry (codes "SINTER") cmd_sinter (negsuc 1) 1
    ∷ entry (codes "SUNION") cmd_sunion (negsuc 1) 1
    ∷ entry (codes "SDIFF") cmd_sdiff (negsuc 1) 1
    ∷ [])

-- The handler of HINCRBYFLOAT is an argument, as that of INCRBYFLOAT.
unfoldable pub hash_family : (RespArgs → M (Unit {0})) → CommandRegistry → CommandRegistry
unfolding register_all
hash_family cmd_hincrbyfloat = register_all (
    entry (codes "HSET") cmd_hset (negsuc 3) 1
    ∷ entry (codes "HGET") cmd_hget (pos 3) 1
    ∷ entry (codes "HDEL") cmd_hdel (negsuc 2) 1
    ∷ entry (codes "HEXISTS") cmd_hexists (pos 3) 1
    ∷ entry (codes "HGETALL") cmd_hgetall (pos 2) 1
    ∷ entry (codes "HKEYS") cmd_hkeys (pos 2) 1
    ∷ entry (codes "HVALS") cmd_hvals (pos 2) 1
    ∷ entry (codes "HLEN") cmd_hlen (pos 2) 1
    ∷ entry (codes "HMSET") cmd_hmset (negsuc 3) 1
    ∷ entry (codes "HMGET") cmd_hmget (negsuc 2) 1
    ∷ entry (codes "HINCRBY") cmd_hincrby (pos 4) 1
    ∷ entry (codes "HINCRBYFLOAT") cmd_hincrbyfloat (pos 4) 1
    ∷ entry (codes "HSETNX") cmd_hsetnx (pos 4) 1
    ∷ [])

-- The sorted-set family, whose handlers compute with floating-point numbers, is an argument.
unfoldable build_command_registry :
    (RespArgs → M (Unit {0}))
    → (RespArgs → M (Unit {0}))
    → (CommandRegistry → CommandRegistry)
    → CommandRegistry
unfolding generic_family string_family list_family set_family hash_family
build_command_registry cmd_incrbyfloat cmd_hincrbyfloat zset_family = zset_family (
    hash_family cmd_hincrbyfloat
      (set_family (list_family (string_family cmd_incrbyfloat (generic_family [])))))
