-- ===== src/Server/Router/Replies/Laws.antt =====
-- The replies of a shard are read back as they were sent.
use mathlib.Core.List.{append_assoc}
use shrikedb.Prelude.{
  map, ℕ, zero, suc, ◌+◌, ◌≡◌, ◌≤◌, ◌<◌, refl, sym, true, Option, none, some, List, [], ◌∷◌, ◌++◌,
  arith, leb, length, length-append, drop, take-append,
}
use shrikedb.Prelude.Int.{ℤ, pos}
use shrikedb.Std.Bytes.{Bytes}
use shrikedb.Std.Text.{is_utf8}
use shrikedb.Std.Text.Laws.{Printable, is_utf8-Printable}
use shrikedb.Std.Integer.{IsI64, i64_max, as_i64, int_to_string, parse_i64}
use shrikedb.Std.Integer.Laws.{parse_i64-int_to_string, int_to_string-Printable}
use shrikedb.Facade.Reply.{
  value_reply, Itoa, integer, null, bulk_string, array_len, crlf, render, render_all, write_int,
}
use shrikedb.Server.Router.Replies.{
  split_at, number, parse_resp_integer, element, bulk, elements, parse_resp_array,
}

-- A printable text has no line end.
split_at-Printable :
    (c : ℕ) (s t : Bytes) → c < 32 → Printable s → split_at c (s ++ c ∷ t) ≡ (s, c ∷ t)
unfolding split_at
split_at-Printable c [] t h p = ground arith
split_at-Printable c (b ∷ s) t h p = rw (split_at-Printable c s t h p.2) (ground arith)

as_i64-length : (d : Bytes) → length d ≤ i64_max → as_i64 (length d) ≡ pos (length d)
as_i64-length d h = ground arith

number-int_to_string : (n : ℤ) → IsI64 n → number (int_to_string n) ≡ some n
number-int_to_string n h =
    rw (is_utf8-Printable (int_to_string n) (int_to_string-Printable n))
      (parse_i64-int_to_string n h)

-- An integer reply of a shard, an i64, is read back as that number.
pub parse_resp_integer-render :
    (itoa : Itoa) (n : ℤ) → IsI64 n → parse_resp_integer (render_all itoa (integer n ∷ [])) ≡ some n
unfolding parse_resp_integer render_all render write_int
parse_resp_integer-render itoa n h =
    rw
      (
        itoa.format_lem n h,
        append_assoc (int_to_string n) crlf [],
        split_at-Printable 13 (int_to_string n) (10 ∷ []) (omega arith) (int_to_string-Printable n),
      )
      (number-int_to_string n h)

-- The lengths of the values are i64s, as those of all slices.
abbrev pub ValueIsShort : Option Bytes → Type 0
ValueIsShort none = Unit
ValueIsShort (some d) = length d ≤ i64_max

abbrev pub AllShort : List (Option Bytes) → Type 0
AllShort [] = Unit
AllShort (v ∷ vs) = ValueIsShort v × AllShort vs

-- The rest after the line end, which is of two bytes.
split_at_newline : (s t : Bytes) → Printable s → (split_at 10 (s ++ 13 ∷ t)).1 ≡ (split_at 10 t).1
unfolding split_at
split_at_newline [] t h = refl
split_at_newline (b ∷ s) t h = rw (sym (split_at_newline s t h.2)) (ground arith)

drop-line : (d rest : Bytes) → drop (suc (suc (length d))) (d ++ 13 ∷ 10 ∷ rest) ≡ rest
drop-line [] rest = refl
drop-line (b ∷ d) rest = drop-line d rest

elements-null :
    (itoa : Itoa) (f : ℕ) (rest : Bytes)
    → elements (suc f) (render itoa null ++ rest) ≡ element none (elements f rest)
unfolding elements render is_utf8 parse_i64 split_at
elements-null itoa f rest = refl

bulk-found :
    (next : Bytes → Option (List (Option Bytes))) (text d rest : Bytes)
    → number text ≡ some (pos (length d))
    → bulk next (text, 13 ∷ 10 ∷ (d ++ (crlf ++ rest))) ≡ element (some d) (next rest)
unfolding bulk
bulk-found next text d rest h =
    let here : leb (length d + 2) (length (13 ∷ 10 ∷ (d ++ (crlf ++ rest)))) ≡ true =
      ground (arith, length-append d (crlf ++ rest)) in
    let more : length d + 2 ≡ suc (suc (length d)) = omega arith in
    rw (bulk, h, here, take-append d (crlf ++ rest), more, drop-line d rest) refl

elements-bulk :
    (itoa : Itoa) (f : ℕ) (d rest : Bytes)
    → length d ≤ i64_max
    → elements (suc f) (render itoa (bulk_string d) ++ rest) ≡ element (some d) (elements f rest)
unfolding elements render write_int
elements-bulk itoa f d rest h =
    let len = int_to_string (pos (length d)) in
    rw
      (
        elements,
        as_i64-length d h,
        itoa.format_lem (pos (length d)) h,
        append_assoc len (crlf ++ (d ++ crlf)) rest,
        append_assoc d crlf rest,
        split_at-Printable 13 len (10 ∷ (d ++ (crlf ++ rest))) (omega arith)
            (int_to_string-Printable (pos (length d))),
      )
      (bulk-found (elements f) len d rest (number-int_to_string (pos (length d)) h))

elements-values :
    (itoa : Itoa) (vs : List (Option Bytes)) (f : ℕ)
    → AllShort vs
    → length vs < f
    → elements f (render_all itoa (map value_reply vs)) ≡ some vs
unfolding render_all
elements-values itoa vs zero h p = absurd (omega arith)
elements-values itoa [] (suc f) h p = unfold elements in refl
elements-values itoa (none ∷ vs) (suc f) h p =
    rw
      (
        elements-null itoa f (render_all itoa (map value_reply vs)),
        elements-values itoa vs f h.1 (omega arith),
      )
      refl
elements-values itoa (some d ∷ vs) (suc f) h p =
    rw
      (
        elements-bulk itoa f d (render_all itoa (map value_reply vs)) h.0,
        elements-values itoa vs f h.1 (omega arith),
      )
      refl

value-some_bytes : (itoa : Itoa) (v : Option Bytes) → 1 ≤ length (render itoa (value_reply v))
unfolding render
value-some_bytes itoa none = omega arith
value-some_bytes itoa (some d) = omega arith

length-value_replies :
    (itoa : Itoa) (vs : List (Option Bytes))
    → length vs ≤ length (render_all itoa (map value_reply vs))
unfolding render_all
length-value_replies itoa [] = omega arith
length-value_replies itoa (v ∷ vs) = omega (
  arith,
  length-value_replies itoa vs,
  value-some_bytes itoa v,
  length-append (render itoa (value_reply v)) (render_all itoa (map value_reply vs)),
)

-- An array of bulk strings and nulls, as a shard answers MGET or KEYS, is read back as it was sent;
-- its lengths are i64s.
pub parse_resp_array-render :
    (itoa : Itoa) (vs : List (Option Bytes))
    → length vs ≤ i64_max
    → AllShort vs
    → parse_resp_array (render_all itoa (array_len (length vs) ∷ map value_reply vs)) ≡ some vs
unfolding parse_resp_array render_all render write_int
parse_resp_array-render itoa vs w h =
    let text = int_to_string (pos (length vs)) in
    let rest = render_all itoa (map value_reply vs) in
    let size : as_i64 (length vs) ≡ pos (length vs) = ground arith in
    rw
      (
        size,
        itoa.format_lem (pos (length vs)) w,
        append_assoc text crlf rest,
        split_at_newline text (10 ∷ rest) (int_to_string-Printable (pos (length vs))),
      )
      (elements-values itoa vs (length (text ++ 13 ∷ 10 ∷ rest) + 1) h
        (omega (arith, length-append text (13 ∷ 10 ∷ rest), length-value_replies itoa vs)))
