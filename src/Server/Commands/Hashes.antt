-- ===== src/Server/Commands/Hashes.antt =====
-- hash_family.rs: the handlers but HINCRBYFLOAT, which computes with floating-point numbers. A
-- `HashMap` is a finite map with an order of iteration, as the tables are.
pub mod Fields
pub mod Stored
pub mod Laws
use shrikedb.Prelude.{
  ℕ, zero, suc, ◌+◌, ◌*◌, ◌-◌, ◌%◌, Bool, true, false, not, Option, none, some, List, [], ◌∷◌,
  if◌then◌else◌, length, drop, map,
}
use shrikedb.Prelude.Int.{ℤ, pos, negsuc}
use shrikedb.Std.Bytes.{Bytes, codes}
use shrikedb.Std.Integer.{wrapping_add, as_i64, as_u64, u64_modulus, int_to_string, parse_i64}
use shrikedb.Core.Key.{bytes_key}
use shrikedb.Core.Contract
use shrikedb.Core.Contract.{Entries}
use shrikedb.Core.CompactObj.{PrimeValue, hash}
use shrikedb.Facade.Resp.{RespArgs}
use shrikedb.Facade.Reply.{Reply, ok, null, err, bulk_string, integer, array_len, string_array}
use shrikedb.Server.Context.{M, ◌>>=◌, ◌>>◌, send, arg, arg_str, all_bytes}
use shrikedb.Server.Commands.Strings.{not_an_integer, pairs, even}
use shrikedb.Server.Commands.Typed.{query, update, shrink}

abbrev pub HashMap : Type 0
HashMap = Entries Bytes Bytes

abbrev pub as_hash : PrimeValue → Option HashMap
as_hash (hash m) = some m
as_hash _ = none

-- `for (f, v) in pairs { if map.insert(f, v).is_none() { added += 1; } }`
unfoldable pub insert_fields : List (Bytes × Bytes) → HashMap × ℕ → HashMap × ℕ
insert_fields [] (m, added) = (m, added)
insert_fields ((f, v) ∷ rest) (m, added) =
    insert_fields rest (Contract.insert f v m, if Contract.contains f m then added else added + 1)

unfoldable pub remove_fields : List Bytes → HashMap × ℕ → HashMap × ℕ
remove_fields [] (m, removed) = (m, removed)
remove_fields (f ∷ fs) (m, removed) =
    remove_fields fs (Contract.remove f m, if Contract.contains f m then removed + 1 else removed)

abbrev pub count_reply : ℕ → List Reply
count_reply n = integer (pos n) ∷ []

abbrev pub set_fields : List (Bytes × Bytes) → HashMap → HashMap × List Reply
set_fields fields m = let (m', added) = insert_fields fields (m, 0) in (m', count_reply added)

abbrev pub set_fields_ok : List (Bytes × Bytes) → HashMap → HashMap × List Reply
set_fields_ok fields m = let (m', added) = insert_fields fields (m, 0) in (m', ok ∷ [])

abbrev pub is_empty : HashMap → Bool
is_empty [] = true
is_empty (e ∷ m) = false

abbrev pub drop_fields : List Bytes → HashMap → HashMap × Bool × List Reply
drop_fields fs m =
    let (m', removed) = remove_fields fs (m, 0) in (m', is_empty m', count_reply removed)

-- The arguments of HSET and HMSET, which come in pairs from the third on.
set_command :
    Bytes → (List (Bytes × Bytes) → HashMap → HashMap × List Reply) → RespArgs → M (Unit {0})
unfolding update
set_command name f args = do
  key ← arg args 1
  (if even (length args - 2)
      then (do words ← all_bytes (drop 2 args); update as_hash hash [] (f (pairs words)) key)
      else send (err name))

unfoldable pub cmd_hset : RespArgs → M (Unit {0})
unfolding set_command insert_fields
cmd_hset args = set_command (codes "wrong number of arguments for 'hset' command") set_fields args

unfoldable pub cmd_hmset : RespArgs → M (Unit {0})
unfolding set_command insert_fields
cmd_hmset args =
    set_command (codes "wrong number of arguments for 'hmset' command") set_fields_ok args

abbrev pub field_reply : HashMap → Bytes → Reply
field_reply m f = elim (Contract.find f m) [ none ↦ null | some v ↦ bulk_string v ]

unfoldable pub cmd_hget : RespArgs → M (Unit {0})
unfolding query
cmd_hget args = do
  key ← arg args 1
  field ← arg args 2
  query as_hash (null ∷ []) (λ m. field_reply m field ∷ []) key

unfoldable pub cmd_hdel : RespArgs → M (Unit {0})
unfolding shrink remove_fields
cmd_hdel args = do
  key ← arg args 1
  fields ← all_bytes (drop 2 args)
  shrink as_hash hash (count_reply 0) (drop_fields fields) key

unfoldable pub cmd_hexists : RespArgs → M (Unit {0})
unfolding query
cmd_hexists args = do
  key ← arg args 1
  field ← arg args 2
  query as_hash (count_reply 0)
      (λ m. integer (if Contract.contains field m then pos 1 else pos 0) ∷ []) key

abbrev pub entry_replies : HashMap → List Reply
entry_replies [] = []
entry_replies ((f, v) ∷ m) = bulk_string f ∷ bulk_string v ∷ entry_replies m

unfoldable pub cmd_hgetall : RespArgs → M (Unit {0})
unfolding query
cmd_hgetall args = do
  key ← arg args 1
  query as_hash (array_len 0 ∷ []) (λ m. array_len (length m * 2) ∷ entry_replies m) key

unfoldable pub cmd_hkeys : RespArgs → M (Unit {0})
unfolding query
cmd_hkeys args = do
  key ← arg args 1
  query as_hash (array_len 0 ∷ []) (λ m. string_array (map (λ e. e.0) m)) key

unfoldable pub cmd_hvals : RespArgs → M (Unit {0})
unfolding query
cmd_hvals args = do
  key ← arg args 1
  query as_hash (array_len 0 ∷ []) (λ m. string_array (map (λ e. e.1) m)) key

unfoldable pub cmd_hlen : RespArgs → M (Unit {0})
unfolding query
cmd_hlen args = do
  key ← arg args 1
  query as_hash (count_reply 0) (λ m. integer (as_i64 (length m)) ∷ []) key

unfoldable pub cmd_hmget : RespArgs → M (Unit {0})
unfolding query
cmd_hmget args = do
  key ← arg args 1
  fields ← all_bytes (drop 2 args)
  query as_hash (array_len (length fields) ∷ map (λ f. null) fields)
      (λ m. array_len (length fields) ∷ map (field_reply m) fields) key

-- `s.parse().ok()` of a text that may be absent.
abbrev pub parsed : Option Bytes → Option ℤ
parsed none = none
parsed (some s) = parse_i64 s

abbrev pub or_zero : Option ℤ → ℤ
or_zero none = pos 0
or_zero (some n) = n

-- The field as a number, 0 if it is absent or no number. A text that is not UTF-8 is no number.
abbrev pub current : Bytes → HashMap → ℤ
current field m = or_zero (parsed (Contract.find field m))

abbrev pub add_to_field : Bytes → ℤ → HashMap → HashMap × List Reply
add_to_field field delta m =
    let sum = wrapping_add (current field m) delta in
    (Contract.insert field (int_to_string sum) m, integer sum ∷ [])

unfoldable pub cmd_hincrby : RespArgs → M (Unit {0})
unfolding update wrapping_add
cmd_hincrby args = do
  key ← arg args 1
  field ← arg args 2
  elim (parsed (arg_str args 3)) [
    | none ↦ send not_an_integer
    | some delta ↦ update as_hash hash [] (add_to_field field delta) key
  ]

abbrev pub add_field : Bytes → Bytes → HashMap → HashMap × List Reply
add_field field value m =
    if Contract.contains field m
    then (m, count_reply 0)
    else (Contract.insert field value m, count_reply 1)

unfoldable pub cmd_hsetnx : RespArgs → M (Unit {0})
unfolding update
cmd_hsetnx args = do
  key ← arg args 1
  field ← arg args 2
  value ← arg args 3
  update as_hash hash [] (add_field field value) key
