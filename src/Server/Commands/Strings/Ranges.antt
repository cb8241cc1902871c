-- ===== src/Server/Commands/Strings/Ranges.antt =====
-- string_family.rs: APPEND, GETRANGE and SETRANGE.
use shrikedb.Prelude.{
  ℕ, ◌+◌, ◌-◌, ◌||◌, Option, none, some, [], ◌++◌, min, if◌then◌else◌, length, take, drop,
  replicate, ltb, leb,
}
use shrikedb.Prelude.Int.{ℤ, pos, negsuc}
use shrikedb.Std.Bytes.{Bytes, codes}
use shrikedb.Std.Integer.{as_i64, i64_max}
use shrikedb.Core.CompactObj.{PrimeValue, string, is_string, ensure_string}
use shrikedb.Facade.Resp.{RespArgs}
use shrikedb.Facade.Reply.{err, wrong_type, bulk_string, integer}
use shrikedb.Server.DbSlice.{find, add_or_update, write_back}
use shrikedb.Server.Context.{M, ◌>>=◌, ◌>>◌, pure, panic, send, on, arg, arg_int}
use shrikedb.Server.Commands.Strings.{not_an_integer, string_or}

-- `r.value.ensure_string()`, and an edit of the bytes under the reference.
edit : Bytes → (Bytes → Bytes) → PrimeValue → M (Unit {0})
edit key f v = elim (ensure_string v) [
  | string s ↦ do on (write_back key (string (f s))); send (integer (as_i64 (length (f s))))
  | _ ↦ pure tt
]

unfoldable pub cmd_append : RespArgs → M (Unit {0})
unfolding edit
cmd_append args = do
  key ← arg args 1
  appended ← arg args 2
  r ← on (find key)
  elim r [
    | some r ↦
        if is_string r.value then edit key (λ s. s ++ appended) r.value else send (wrong_type [])
    | none ↦ do on (add_or_update key (string appended)); send (integer (as_i64 (length appended)))
  ]

-- `(len + start).max(0)` for a negative start, `start.min(len)` otherwise.
abbrev pub range_start : ℕ → ℤ → ℕ
range_start len (pos n) = min n len
range_start len (negsuc n) = len - (n + 1)

-- `(len + end).max(0)`, and `end.min(len - 1).max(0)`.
abbrev pub range_end : ℕ → ℤ → ℕ
range_end len (pos n) = min n (len - 1)
range_end len (negsuc n) = len - (n + 1)

-- `data[s..=e]`, or nothing if the range is empty.
unfoldable pub range_of : Bytes → ℤ → ℤ → Bytes
range_of d start end =
    let s = range_start (length d) start in
    let e = range_end (length d) end in
    if ltb e s || leb (length d) s then [] else take (e - s + 1) (drop s d)

unfoldable pub cmd_getrange : RespArgs → M (Unit {0})
unfolding range_of
cmd_getrange args = do
  key ← arg args 1
  elim (arg_int args 2) [
    | none ↦ send not_an_integer
    | some start ↦ elim (arg_int args 3) [
      | none ↦ send not_an_integer
      | some end ↦ do
        r ← on (find key)
        string_or r (λ d. send (bulk_string (range_of d start end))) (send (bulk_string []))
    ]
  ]

abbrev pub natural : Option ℤ → Option ℕ
natural (some (pos n)) = some n
natural _ = none

-- `resize(needed, 0)` if the string is shorter, and the copy.
unfoldable pub overwrite : ℕ → Bytes → Bytes → Bytes
overwrite offset value s =
    let needed = offset + length value in
    let padded = s ++ replicate (needed - length s) 0 in
    take offset padded ++ (value ++ drop needed padded)

-- A vector of more than isize::MAX bytes cannot be made: "capacity overflow".
unfoldable pub cmd_setrange : RespArgs → M (Unit {0})
unfolding edit overwrite
cmd_setrange args = do
  key ← arg args 1
  elim (natural (arg_int args 2)) [
    | none ↦ send (err (codes "offset is out of range"))
    | some offset ↦ do
      value ← arg args 3
      r ← on (find key)
      let room = leb (offset + length value) i64_max
      elim r [
        | some r ↦
            if is_string r.value
            then (if room then edit key (overwrite offset value) r.value else panic)
            else send (wrong_type [])
        | none ↦
            if room
            then (do
              on (add_or_update key (string (overwrite offset value [])))
              send (integer (as_i64 (length (overwrite offset value [])))))
            else panic
      ]
  ]
