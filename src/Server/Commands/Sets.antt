-- ===== src/Server/Commands/Sets.antt =====
-- set_family.rs: the handlers. The order of the members in a reply is that of the model's list; no
-- theorem depends on it.
pub mod Stored
pub mod Loops
pub mod Laws
pub mod Combine
use mathlib.Core.List.{foldl}
use shrikedb.Prelude.{
  ℕ, zero, suc, ◌+◌, Bool, true, false, Option, none, some, List, [], ◌∷◌, if◌then◌else◌, length,
  drop, map,
}
use shrikedb.Prelude.Int.{ℤ, pos, negsuc}
use shrikedb.Std.Bytes.{Bytes}
use shrikedb.Std.Integer.{as_i64}
use shrikedb.Std.HashSet
use shrikedb.Std.HashSet.{HashSet}
use shrikedb.Core.CompactObj.{PrimeValue, set}
use shrikedb.Facade.Resp.{RespArgs}
use shrikedb.Facade.Reply.{Reply, null, wrong_type, bulk_string, integer, array_len, string_array}
use shrikedb.Server.Context.{M, ◌>>=◌, ◌>>◌, pure, send, send_all, arg, all_bytes, tail}
use shrikedb.Server.Commands.Typed.{Found, missing, other, held, find_as, query, update, shrink}

abbrev pub as_set : PrimeValue → Option HashSet
as_set (set s) = some s
as_set _ = none

-- `for m in members { if set.insert(m) { added += 1; } }`
unfoldable pub insert_all : List Bytes → HashSet × ℕ → HashSet × ℕ
insert_all [] (s, added) = (s, added)
insert_all (m ∷ ms) (s, added) =
    let (s', new) = HashSet.insert m s in insert_all ms (s', if new then added + 1 else added)

unfoldable pub remove_all : List Bytes → HashSet × ℕ → HashSet × ℕ
remove_all [] (s, removed) = (s, removed)
remove_all (m ∷ ms) (s, removed) =
    let (s', found) = HashSet.remove m s in
    remove_all ms (s', if found then removed + 1 else removed)

abbrev pub count_reply : ℕ → List Reply
count_reply n = integer (pos n) ∷ []

abbrev pub add_members : List Bytes → HashSet → HashSet × List Reply
add_members ms s = let (s', added) = insert_all ms (s, 0) in (s', count_reply added)

abbrev pub is_empty : HashSet → Bool
is_empty [] = true
is_empty (m ∷ s) = false

abbrev pub drop_members : List Bytes → HashSet → HashSet × Bool × List Reply
drop_members ms s =
    let (s', removed) = remove_all ms (s, 0) in (s', is_empty s', count_reply removed)

unfoldable pub cmd_sadd : RespArgs → M (Unit {0})
unfolding update insert_all
cmd_sadd args = do
  key ← arg args 1
  members ← all_bytes (drop 2 args)
  update as_set set [] (add_members members) key

unfoldable pub cmd_srem : RespArgs → M (Unit {0})
unfolding shrink remove_all
cmd_srem args = do
  key ← arg args 1
  members ← all_bytes (drop 2 args)
  shrink as_set set (count_reply 0) (drop_members members) key

unfoldable pub cmd_smembers : RespArgs → M (Unit {0})
unfolding query
cmd_smembers args = do key ← arg args 1; query as_set (array_len 0 ∷ []) string_array key

abbrev pub member_flag : HashSet → Bytes → Reply
member_flag s m = integer (if HashSet.contains m s then pos 1 else pos 0)

unfoldable pub cmd_sismember : RespArgs → M (Unit {0})
unfolding query
cmd_sismember args = do
  key ← arg args 1
  member ← arg args 2
  query as_set (count_reply 0) (λ s. member_flag s member ∷ []) key

unfoldable pub cmd_smismember : RespArgs → M (Unit {0})
unfolding query
cmd_smismember args = do
  key ← arg args 1
  members ← all_bytes (drop 2 args)
  query as_set (array_len (length members) ∷ map (λ m. integer (pos 0)) members)
      (λ s. array_len (length members) ∷ map (member_flag s) members) key

unfoldable pub cmd_scard : RespArgs → M (Unit {0})
unfolding query
cmd_scard args = do
  key ← arg args 1
  query as_set (count_reply 0) (λ s. integer (as_i64 (length s)) ∷ []) key

-- `set.iter().next()`
abbrev pub first_reply : HashSet → List Reply
first_reply [] = null ∷ []
first_reply (m ∷ s) = bulk_string m ∷ []

unfoldable pub cmd_srandmember : RespArgs → M (Unit {0})
unfolding query
cmd_srandmember args = do key ← arg args 1; query as_set (null ∷ []) first_reply key

abbrev pub pop_member : HashSet → HashSet × Bool × List Reply
pop_member [] = ([], false, null ∷ [])
pop_member (m ∷ s) =
    let (rest, found) = HashSet.remove m (m ∷ s) in (rest, is_empty rest, bulk_string m ∷ [])

unfoldable pub cmd_spop : RespArgs → M (Unit {0})
unfolding shrink
cmd_spop args = do key ← arg args 1; shrink as_set set (null ∷ []) pop_member key

pub data SetOp : Type 0 where
  inter union_op diff : SetOp

abbrev pub set_push : HashSet → Option (List HashSet) → Option (List HashSet)
set_push s none = none
set_push s (some sets) = some (s ∷ sets)

-- The sets of the keys in their order, or `none` at the first value of another type.
unfoldable pub collect_sets : List Bytes → M (Option (List HashSet))
collect_sets [] = pure (some [])
collect_sets (key ∷ keys) = do
  found ← find_as as_set key
  elim found [
    | other ↦ pure none
    | missing ↦ do rest ← collect_sets keys; pure (set_push [] rest)
    | held s ↦ do rest ← collect_sets keys; pure (set_push s rest)
  ]

abbrev pub merge : SetOp → HashSet → HashSet → HashSet
merge inter acc s = HashSet.intersection acc s
merge union_op acc s = HashSet.union acc s
merge diff acc s = HashSet.difference acc s

abbrev pub result_replies : SetOp → Option (List HashSet) → List Reply
result_replies op none = wrong_type [] ∷ []
result_replies op (some []) = array_len 0 ∷ []
result_replies op (some (s ∷ sets)) = string_array (foldl (merge op) s sets)

unfoldable pub set_op : SetOp → RespArgs → M (Unit {0})
unfolding collect_sets
set_op op args = do
  keys ← all_bytes (tail args)
  sets ← collect_sets keys
  send_all (result_replies op sets)

unfoldable pub cmd_sinter : RespArgs → M (Unit {0})
unfolding set_op
cmd_sinter args = set_op inter args

unfoldable pub cmd_sunion : RespArgs → M (Unit {0})
unfolding set_op
cmd_sunion args = set_op union_op args

unfoldable pub cmd_sdiff : RespArgs → M (Unit {0})
unfolding set_op
cmd_sdiff args = set_op diff args
