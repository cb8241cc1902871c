-- ===== src/Server/Commands/Lists/Commands.antt =====
-- list_family.rs: the handlers.
use shrikedb.Prelude.{
  ℕ, ◌+◌, Option, none, some, List, [], ◌∷◌, ltb, leb, min, if◌then◌else◌, length, drop, get_elem?,
  set,
}
use shrikedb.Prelude.Int.{ℤ, pos, negsuc}
use shrikedb.Std.Bytes.{Bytes, codes, bytes_eq}
use shrikedb.Std.Integer.{as_i64}
use shrikedb.Core.CompactObj.{list}
use shrikedb.Facade.Resp.{RespArgs}
use shrikedb.Facade.Reply.{
  Reply, ok, null, err, wrong_type, bulk_string, integer, array_len, bulks, string_array,
}
use shrikedb.Server.DbSlice.{FindResult, find, add_or_update, write_back, del}
use shrikedb.Server.Context.{
  M, ◌>>=◌, ◌>>◌, pure, send, send_all, on, arg, arg_int, arg_word, all_bytes,
}
use shrikedb.Server.Commands.Lists.Edits.{
  push_front_all, push_back_all, Pop, pop_front, pop_back, pop_loop, list_range, index_of,
  remove_items, position, insert_at,
}

-- What `find_mut` found: no key, a list, or a value of another type.
pub data Found : Type 0 where
  missing other : Found
  items : List Bytes → Found

abbrev pub as_list : Option FindResult → Found
as_list none = missing
as_list (some r) = elim r.value [ list l ↦ items l | _ ↦ other ]

abbrev pub find_list : Bytes → M Found
find_list key = do r ← on (find key); pure (as_list r)

abbrev pub reply_length : List Bytes → Reply
reply_length l = integer (as_i64 (length l))

unfoldable pub push : (List Bytes → List Bytes → List Bytes) → RespArgs → M (Unit {0})
push push_all args = do
  key ← arg args 1
  values ← all_bytes (drop 2 args)
  found ← find_list key
  elim found [
    | other ↦ send (wrong_type [])
    | missing ↦ do
      on (add_or_update key (list (push_all values [])))
      send (reply_length (push_all values []))
    | items l ↦ do
      on (write_back key (list (push_all values l)))
      send (reply_length (push_all values l))
  ]

unfoldable pub cmd_lpush : RespArgs → M (Unit {0})
unfolding push push_front_all
cmd_lpush args = push push_front_all args

unfoldable pub cmd_rpush : RespArgs → M (Unit {0})
unfolding push push_back_all
cmd_rpush args = push push_back_all args

-- The list is written through the reference, and the key is deleted if no item is left.
unfoldable pub store_or_delete : Bytes → List Bytes → M (Unit {0})
store_or_delete key [] = do on (write_back key (list [])); on (del key); pure tt
store_or_delete key (v ∷ l) = do on (write_back key (list (v ∷ l))); pure tt

-- `arg_int(2).unwrap_or(1).max(0)`
abbrev pub pop_count : Option ℤ → ℕ
pop_count none = 1
pop_count (some (pos n)) = n
pop_count (some (negsuc n)) = 0

unfoldable pub pop_one : Pop → Bytes → List Bytes → M (Unit {0})
unfolding store_or_delete
pop_one pop key l = elim (pop l) [
  | none ↦ do send null; store_or_delete key l
  | some (v, rest) ↦ do send (bulk_string v); store_or_delete key rest
]

unfoldable pub pop_many : Pop → Bytes → ℕ → List Bytes → M (Unit {0})
unfolding store_or_delete
pop_many pop key count l =
    let n = min count (length l) in
    let (vs, rest) = pop_loop pop n l in
    (do send (array_len n); send_all (bulks vs); store_or_delete key rest)

unfoldable pub pop_with : Pop → RespArgs → M (Unit {0})
unfolding pop_one pop_many
pop_with pop args = do
  key ← arg args 1
  found ← find_list key
  elim found [
    | other ↦ send (wrong_type [])
    | missing ↦ send null
    | items l ↦
        if leb (length args) 2
        then pop_one pop key l
        else pop_many pop key (pop_count (arg_int args 2)) l
  ]

unfoldable pub cmd_lpop : RespArgs → M (Unit {0})
unfolding pop_with
cmd_lpop args = pop_with pop_front args

unfoldable pub cmd_rpop : RespArgs → M (Unit {0})
unfolding pop_with
cmd_rpop args = pop_with pop_back args

unfoldable pub cmd_llen : RespArgs → M (Unit {0})
cmd_llen args = do
  key ← arg args 1
  found ← find_list key
  elim found [
    | other ↦ send (wrong_type [])
    | missing ↦ send (integer (pos 0))
    | items l ↦ send (reply_length l)
  ]

abbrev or_default : ℤ → Option ℤ → ℤ
or_default d none = d
or_default d (some n) = n

unfoldable pub cmd_lrange : RespArgs → M (Unit {0})
cmd_lrange args = do
  key ← arg args 1
  found ← find_list key
  elim found [
    | other ↦ send (wrong_type [])
    | missing ↦ send (array_len 0)
    | items l ↦ send_all (
        string_array (
          list_range l (or_default (pos 0) (arg_int args 2))
            (or_default (negsuc 0) (arg_int args 3))))
  ]

-- `list.get(i)` for an index that may be out of range.
abbrev item_at : List Bytes → Option ℕ → Option Bytes
item_at l none = none
item_at l (some i) = get_elem? l i

abbrev item_reply : Option Bytes → Reply
item_reply none = null
item_reply (some v) = bulk_string v

unfoldable pub cmd_lindex : RespArgs → M (Unit {0})
cmd_lindex args = do
  key ← arg args 1
  found ← find_list key
  elim found [
    | other ↦ send (wrong_type [])
    | missing ↦ send null
    | items l ↦
        send (item_reply (item_at l (index_of (length l) (or_default (pos 0) (arg_int args 2)))))
  ]

abbrev in_range : ℕ → Option ℕ → Option ℕ
in_range len none = none
in_range len (some i) = if ltb i len then some i else none

unfoldable pub cmd_lset : RespArgs → M (Unit {0})
cmd_lset args = do
  key ← arg args 1
  value ← arg args 3
  found ← find_list key
  elim found [
    | other ↦ send (wrong_type [])
    | missing ↦ send (err (codes "no such key"))
    | items l ↦
        elim (in_range (length l) (index_of (length l) (or_default (pos 0) (arg_int args 2)))) [
          | none ↦ send (err (codes "index out of range"))
          | some i ↦ do on (write_back key (list (set l i value))); send ok
        ]
  ]

unfoldable pub cmd_lrem : RespArgs → M (Unit {0})
unfolding store_or_delete
cmd_lrem args = do
  key ← arg args 1
  value ← arg args 3
  found ← find_list key
  elim found [
    | other ↦ send (wrong_type [])
    | missing ↦ send (integer (pos 0))
    | items l ↦
        let (removed, rest) = remove_items (or_default (pos 0) (arg_int args 2)) value l in
        (do store_or_delete key rest; send (integer (pos removed)))
  ]

unfoldable pub cmd_ltrim : RespArgs → M (Unit {0})
unfolding store_or_delete
cmd_ltrim args = do
  key ← arg args 1
  found ← find_list key
  elim found [
    | other ↦ send (wrong_type [])
    | missing ↦ send ok
    | items l ↦ do
      store_or_delete key (
          list_range l (or_default (pos 0) (arg_int args 2))
            (or_default (negsuc 0) (arg_int args 3)))
      send ok
  ]

-- Every word but BEFORE counts as AFTER.
unfoldable pub cmd_linsert : RespArgs → M (Unit {0})
cmd_linsert args = do
  key ← arg args 1
  arg args 2
  pivot ← arg args 3
  value ← arg args 4
  found ← find_list key
  elim found [
    | other ↦ send (wrong_type [])
    | missing ↦ send (integer (pos 0))
    | items l ↦ elim (position pivot l) [
      | none ↦ send (integer (negsuc 0))
      | some i ↦
          let at = if bytes_eq (arg_word args 2) (codes "BEFORE") then i else i + 1 in
          (do
            on (write_back key (list (insert_at at value l)))
            send (reply_length (insert_at at value l)))
    ]
  ]
