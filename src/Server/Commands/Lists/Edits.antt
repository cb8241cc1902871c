-- ===== src/Server/Commands/Lists/Edits.antt =====
-- list_family.rs: what the commands do to the list itself.
use mathlib.Core.List.{reverse}
use shrikedb.Prelude.{
  ℕ, zero, suc, ◌+◌, ◌-◌, Bool, true, false, ◌||◌, Option, none, some, List, [], ◌∷◌, ◌++◌, ltb,
  leb, ◌==◌, min, if◌then◌else◌, length, take, drop,
}
use shrikedb.Prelude.Int.{ℤ, pos, negsuc}
use shrikedb.Std.Bytes.{Bytes, bytes_eq}
use shrikedb.Std.Integer.{i64_max, u64_modulus}

-- `for v in values { list.push_front(v) }`
unfoldable pub push_front_all : List Bytes → List Bytes → List Bytes
push_front_all [] l = l
push_front_all (v ∷ vs) l = push_front_all vs (v ∷ l)

unfoldable pub push_back_all : List Bytes → List Bytes → List Bytes
push_back_all [] l = l
push_back_all (v ∷ vs) l = push_back_all vs (l ++ (v ∷ []))

abbrev pub Pop : Type 0
Pop = List Bytes → Option (Bytes × List Bytes)

unfoldable pub pop_front : Pop
pop_front [] = none
pop_front (v ∷ l) = some (v, l)

unfoldable pub pop_back : Pop
pop_back [] = none
pop_back (v ∷ l) = elim (pop_back l) [ none ↦ some (v, []) | some (w, r) ↦ some (w, v ∷ r) ]

-- `for _ in 0..n { if let Some(v) = pop() { send(v) } }`: the items, and what is left.
unfoldable pub pop_loop : Pop → ℕ → List Bytes → List Bytes × List Bytes
pop_loop pop zero l = ([], l)
pop_loop pop (suc n) l = elim (pop l) [
  | none ↦ pop_loop pop n l
  | some (v, r) ↦ (let (vs, rest) = pop_loop pop n r in (v ∷ vs, rest))
]

-- The bounds of LRANGE and LTRIM. On an empty list `(len - 1) as usize` is the greatest usize.
abbrev pub list_start : ℕ → ℤ → ℕ
list_start len (pos n) = min n len
list_start len (negsuc n) = len - (n + 1)

abbrev pub list_end : ℕ → ℤ → ℕ
list_end len (pos n) = if len == 0 then u64_modulus - 1 else min n (len - 1)
list_end len (negsuc n) = len - (n + 1)

-- `list[s..=e]`, or nothing if the range is empty.
unfoldable pub list_range : List Bytes → ℤ → ℤ → List Bytes
list_range l start stop =
    let s = list_start (length l) start in
    let e = list_end (length l) stop in
    if ltb e s || leb (length l) s then [] else take (e - s + 1) (drop s l)

-- An index from the front, or from the back if it is negative; `none` if it is before the front.
abbrev pub index_of : ℕ → ℤ → Option ℕ
index_of len (pos n) = some n
index_of len (negsuc n) = if leb (n + 1) len then some (len - (n + 1)) else none

-- How many items LREM removes at most: `count.abs()` wraps at the least i64, which removes none.
abbrev pub limit : ℤ → ℕ
limit (pos zero) = i64_max
limit (pos (suc n)) = suc n
limit (negsuc n) = if n == i64_max then 0 else suc n

-- `retain` with its counter: the number removed, and what is left.
unfoldable pub remove_first : ℕ → Bytes → List Bytes → ℕ × List Bytes
remove_first max value [] = (0, [])
remove_first max value (v ∷ l) =
    let hit = remove_first (max - 1) value l in
    let (removed, rest) = remove_first max value l in
    if ltb 0 max
    then (if bytes_eq v value then (hit.0 + 1, hit.1) else (removed, v ∷ rest))
    else (removed, v ∷ rest)

-- Removal from the tail: the indices are collected and removed from the back to the front.
unfoldable pub remove_last : ℕ → Bytes → List Bytes → ℕ × List Bytes
unfolding remove_first
remove_last max value l =
    let (removed, rest) = remove_first max value (reverse l) in (removed, reverse rest)

abbrev pub is_negative : ℤ → Bool
is_negative (pos n) = false
is_negative (negsuc n) = true

unfoldable pub remove_items : ℤ → Bytes → List Bytes → ℕ × List Bytes
unfolding remove_last
remove_items count value l =
    if is_negative count
    then remove_last (limit count) value l
    else remove_first (limit count) value l

-- `position`
unfoldable pub position : Bytes → List Bytes → Option ℕ
position pivot [] = none
position pivot (v ∷ l) =
    if bytes_eq v pivot
    then some 0
    else elim (position pivot l) [ none ↦ none | some i ↦ some (suc i) ]

-- `VecDeque::insert`
abbrev pub insert_at : ℕ → Bytes → List Bytes → List Bytes
insert_at i value l = take i l ++ (value ∷ drop i l)
