-- ===== src/Server/Router/Replies.antt =====
-- `parse_resp_integer` and `parse_resp_array` of main_service.rs: the reply of another shard, read
-- back from its bytes.
pub mod Laws
pub mod Termination
use shrikedb.Prelude.{
  ℕ, zero, suc, ◌+◌, ◌≡◌, refl, Bool, true, false, Option, none, some, List, [], ◌∷◌, leb, ◌==◌,
  if◌then◌else◌, length, take, drop,
}
use shrikedb.Prelude.Int.{ℤ, pos, negsuc}
use shrikedb.Std.Bytes.{Bytes, codes}
use shrikedb.Std.Text.{is_utf8}
use shrikedb.Std.Integer.{parse_i64}

-- The bytes up to the first `c`, and the rest, which begins with it or is empty.
unfoldable pub split_at : ℕ → Bytes → Bytes × Bytes
split_at c [] = ([], [])
split_at c (b ∷ s) =
    let (text, rest) = split_at c s in if b == c then ([], b ∷ s) else (b ∷ text, rest)

-- The text of a number; none where it is no UTF-8 or no i64.
abbrev pub number : Bytes → Option ℤ
number text = if is_utf8 text then parse_i64 text else none

abbrev at_cr : Bytes × Bytes → Option ℤ
at_cr (text, []) = none
at_cr (text, b ∷ rest) = number text

unfoldable pub parse_resp_integer : Bytes → Option ℤ
unfolding split_at
parse_resp_integer [] = none
parse_resp_integer (b ∷ s) = if b == b':' then at_cr (split_at 13 s) else none

abbrev pub or_minus_one : Option ℤ → ℤ
or_minus_one none = negsuc 0
or_minus_one (some n) = n

abbrev pub element : Option Bytes → Option (List (Option Bytes)) → Option (List (Option Bytes))
element v none = none
element v (some vs) = some (v ∷ vs)

-- A bulk string, of which the text of the length ends at `rest`, which begins with the line end, and
-- what comes next. A length that the data does not have ends the loop.
unfoldable pub bulk :
    (Bytes → Option (List (Option Bytes))) → Bytes × Bytes → Option (List (Option Bytes))
bulk next (text, rest) = elim (or_minus_one (number text)) [
  | negsuc n ↦ element none (next (drop 2 rest))
  | pos len ↦ elim (leb (len + 2) (length rest)) [
    | true ↦ element (some (take len (drop 2 rest))) (next (drop (len + 2) (drop 2 rest)))
    | false ↦ some []
  ]
]

-- The elements from `data[pos]` on. `none` is no result of the code: the fuel ran out.
unfoldable pub elements : ℕ → Bytes → Option (List (Option Bytes))
unfolding split_at bulk
elements zero s = none
elements (suc f) [] = some []
elements (suc f) (b ∷ s) = elim (b == b'$') [
  | false ↦ elements f (drop 1 (split_at 10 (b ∷ s)).1)
  | true ↦ bulk (elements f) (split_at 13 s)
]

unfoldable pub parse_resp_array : Bytes → Option (List (Option Bytes))
unfolding elements
parse_resp_array [] = some []
parse_resp_array (b ∷ s) =
    if b == b'*' then elements (length s + 1) (drop 1 (split_at 10 s).1) else some []

integers : parse_resp_integer (codes ":-12\r\n") ≡ some (negsuc 11)
unfolding parse_resp_integer is_utf8 parse_i64
integers = refl

values :
    parse_resp_array (codes "*3\r\n$3\r\nfoo\r\n$-1\r\n$3\r\nbar\r\n")
    ≡ some (some (codes "foo") ∷ none ∷ some (codes "bar") ∷ [])
unfolding parse_resp_array is_utf8 parse_i64
values = refl
