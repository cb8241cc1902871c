-- ===== src/Std/Text.antt =====
-- `std::str::from_utf8`, `trim`, `to_uppercase` and `to_ascii_uppercase` on byte strings.
pub mod Laws
use mathlib.Core.List.{reverse}
use shrikedb.Prelude.{
  ℕ, zero, suc, ◌+◌, ◌-◌, ◌≡◌, refl, Bool, true, false, ◌&&◌, ◌||◌, [], ◌∷◌, ◌++◌, map, ltb, leb,
  ◌==◌, if◌then◌else◌, length, drop,
}
use shrikedb.Std.Bytes.{Bytes, codes}

abbrev pub between : ℕ → ℕ → ℕ → Bool
between lo hi b = leb lo b && leb b hi

-- How many bytes follow a lead byte, and the range of the first of them.
abbrev followers : ℕ → ℕ
followers b = if ltb b 0x80 then 0 else if ltb b 0xE0 then 1 else if ltb b 0xF0 then 2 else 3

abbrev lead_ok : ℕ → Bool
lead_ok b = ltb b 0x80 || between 0xC2 0xF4 b

abbrev low_after : ℕ → ℕ
low_after b = if b == 0xE0 then 0xA0 else if b == 0xF0 then 0x90 else 0x80

abbrev high_after : ℕ → ℕ
high_after b = if b == 0xED then 0x9F else if b == 0xF4 then 0x8F else 0xBF

utf8_from : ℕ → ℕ → ℕ → Bytes → Bool
utf8_from zero lo hi [] = true
utf8_from (suc n) lo hi [] = false
utf8_from zero lo hi (b ∷ s) = lead_ok b && utf8_from (followers b) (low_after b) (high_after b) s
utf8_from (suc n) lo hi (b ∷ s) = between lo hi b && utf8_from n 0x80 0xBF s

-- `std::str::from_utf8(s).is_ok()`
unfoldable pub is_utf8 : Bytes → Bool
unfolding utf8_from
is_utf8 s = utf8_from 0 0 0 s

abbrev space1 : ℕ → Bool
space1 a = between 9 13 a || (a == 32)

abbrev space2 : ℕ → ℕ → Bool
space2 a b = (a == 0xC2) && ((b == 0x85) || (b == 0xA0))

abbrev space3 : ℕ → ℕ → ℕ → Bool
space3 a b c =
    ((a == 0xE1) && (b == 0x9A) && (c == 0x80))
    || ((a == 0xE2) && (b == 0x80) && (between 0x80 0x8A c || between 0xA8 0xA9 c || (c == 0xAF)))
    || ((a == 0xE2) && (b == 0x81) && (c == 0x9F))
    || ((a == 0xE3) && (b == 0x80) && (c == 0x80))

-- The length of the white space character at the front (`char::is_whitespace`), or 0.
unfoldable pub space_length : Bytes → ℕ
space_length [] = 0
space_length (a ∷ []) = if space1 a then 1 else 0
space_length (a ∷ b ∷ []) = if space1 a then 1 else if space2 a b then 2 else 0
space_length (a ∷ b ∷ c ∷ s) =
    if space1 a then 1 else if space2 a b then 2 else if space3 a b c then 3 else 0

-- The same at the end of a text, whose bytes are given last first.
space_length_back : Bytes → ℕ
space_length_back [] = 0
space_length_back (a ∷ []) = if space1 a then 1 else 0
space_length_back (b ∷ a ∷ []) = if space1 b then 1 else if space2 a b then 2 else 0
space_length_back (c ∷ b ∷ a ∷ s) =
    if space1 c then 1 else if space2 b c then 2 else if space3 a b c then 3 else 0

-- Each round drops one character, so the number of bytes is enough rounds.
strip : (Bytes → ℕ) → ℕ → Bytes → Bytes
strip space zero s = s
strip space (suc n) s =
    let rest = strip space n (drop (space s) s) in if space s == 0 then s else rest

unfoldable pub trim_start : Bytes → Bytes
unfolding strip space_length
trim_start s = strip space_length (length s) s

unfoldable pub trim_end : Bytes → Bytes
unfolding strip space_length_back
trim_end s = reverse (strip space_length_back (length s) (reverse s))

unfoldable pub trim : Bytes → Bytes
unfolding trim_start trim_end
trim s = trim_end (trim_start s)

unfoldable pub ascii_upper : ℕ → ℕ
ascii_upper b = if between b'a' b'z' b then b - 32 else b

unfoldable pub ascii_lower : ℕ → ℕ
ascii_lower b = if between b'A' b'Z' b then b + 32 else b

-- `to_ascii_uppercase`
unfoldable pub to_ascii_uppercase : Bytes → Bytes
unfolding ascii_upper
to_ascii_uppercase s = map ascii_upper s

-- `to_lowercase` of a text that is ASCII; other characters are left as they are.
unfoldable pub to_lowercase : Bytes → Bytes
unfolding ascii_lower
to_lowercase s = map ascii_lower s

-- The capitals of the ligature U+FB00 + k.
ligature : ℕ → Bytes
ligature c =
    if c == 0x80
    then codes "FF"
    else if c == 0x81
    then codes "FI"
    else if c == 0x82
    then codes "FL"
    else if c == 0x83
    then codes "FFI"
    else if c == 0x84
    then codes "FFL"
    else codes "ST"

-- The capitals of a character of two bytes (dotless i, long s and sharp s have ASCII capitals) or
-- of three (the Latin ligatures); [] if the capitals are not ASCII.
upper2 : ℕ → ℕ → Bytes
upper2 a b =
    if (a == 0xC4) && (b == 0xB1)
    then codes "I"
    else if (a == 0xC5) && (b == 0xBF)
    then codes "S"
    else if (a == 0xC3) && (b == 0x9F)
    then codes "SS"
    else []

upper3 : ℕ → ℕ → ℕ → Bytes
unfolding ligature
upper3 a b c = if (a == 0xEF) && (b == 0xAC) && between 0x80 0x86 c then ligature c else []

-- `to_uppercase`, for a comparison with ASCII words: a character whose capitals are not ASCII is
-- left as it is, which is not ASCII either.
uppercase_from : ℕ → Bytes → Bytes
unfolding ascii_upper upper2 upper3
uppercase_from zero s = []
uppercase_from (suc n) [] = []
uppercase_from (suc n) (a ∷ []) = ascii_upper a ∷ []
uppercase_from (suc n) (a ∷ b ∷ []) =
    let rest = ascii_upper a ∷ uppercase_from n (b ∷ []) in
    if length (upper2 a b) == 0 then rest else upper2 a b
uppercase_from (suc n) (a ∷ b ∷ c ∷ s) =
    let plain = ascii_upper a ∷ uppercase_from n (b ∷ c ∷ s) in
    let two = upper2 a b ++ uppercase_from n (c ∷ s) in
    let three = upper3 a b c ++ uppercase_from n s in
    if length (upper2 a b) == 0 then (if length (upper3 a b c) == 0 then plain else three) else two

unfoldable pub to_uppercase : Bytes → Bytes
unfolding uppercase_from
to_uppercase s = uppercase_from (length s) s

trims : trim (codes "  12\r\n") ≡ codes "12"
unfolding trim
trims = refl

uppers : to_uppercase (0x70 ∷ 0xC5 ∷ 0xBF ∷ 0x78 ∷ []) ≡ codes "PSX"
unfolding to_uppercase
uppers = refl

utf8_surrogate : is_utf8 (0xED ∷ 0xA0 ∷ 0x80 ∷ []) ≡ false
unfolding is_utf8
utf8_surrogate = refl
