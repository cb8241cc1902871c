-- ===== src/Std/Integer.antt =====
-- The decimal text of machine integers: `to_string`, `itoa`, `parse`, and their ranges.
pub mod Laws
use Prim.Native.Nat.{◌*◌}
use shrikedb.Prelude.{
  ℕ, zero, suc, ◌+◌, ◌-◌, ◌/◌, ◌%◌, ◌^◌, ◌≤◌, ◌<◌, ◌≡◌, refl, Bool, true, false, ◌&&◌, Option, none,
  some, List, [], ◌∷◌, ◌++◌, ltb, leb, ◌==◌, if◌then◌else◌,
}
use shrikedb.Prelude.Int.{ℤ, pos, negsuc}
use shrikedb.Std.Bytes.{Bytes, codes}
use shrikedb.Std.Text.{between, trim, is_utf8}

abbrev pub i64_max : ℕ
i64_max = 2 ^ 63 - 1

abbrev pub u64_modulus : ℕ
u64_modulus = 2 ^ 64

-- `negsuc n` is -(n + 1), so both bounds are the same number.
abbrev pub IsI64 : ℤ → Type 0
IsI64 (pos n) = n ≤ i64_max
IsI64 (negsuc n) = n ≤ i64_max

abbrev pub fits_i64 : ℤ → Bool
fits_i64 (pos n) = leb n i64_max
fits_i64 (negsuc n) = leb n i64_max

-- `n as u64` of an i64.
abbrev pub as_u64 : ℤ → ℕ
as_u64 (pos n) = n
as_u64 (negsuc n) = u64_modulus - (n + 1)

-- `n as i64` of a u64 or a usize.
abbrev pub as_i64 : ℕ → ℤ
as_i64 n = if leb n i64_max then pos n else negsuc (u64_modulus - n - 1)

-- `a + b` on i64 in a release build, which wraps.
unfoldable pub wrapping_add : ℤ → ℤ → ℤ
wrapping_add a b = as_i64 ((as_u64 a + as_u64 b) % u64_modulus)

-- The digits of a number below 10 ^ f.
decimal : ℕ → ℕ → Bytes
decimal zero n = []
decimal (suc f) n =
    let rest = decimal f (n / 10) ++ (b'0' + n % 10) ∷ [] in
    if ltb n 10 then (b'0' + n) ∷ [] else rest

-- `to_string` of an unsigned number. A u64 has at most 20 digits.
unfoldable pub nat_to_string : ℕ → Bytes
unfolding decimal
nat_to_string n = decimal 20 n

unfoldable pub int_to_string : ℤ → Bytes
unfolding nat_to_string
int_to_string (pos n) = nat_to_string n
int_to_string (negsuc n) = b'-' ∷ nat_to_string (suc n)

digits_value : ℕ → Bytes → Option ℕ
digits_value acc [] = some acc
digits_value acc (c ∷ s) =
    if between b'0' b'9' c then digits_value (acc * 10 + (c - b'0')) s else none

parse_digits : Bytes → Option ℕ
unfolding digits_value
parse_digits [] = none
parse_digits (c ∷ s) = digits_value 0 (c ∷ s)

-- `checked_mul` and `checked_add` on the way fail exactly if the number is out of range.
abbrev positive : Option ℕ → Option ℤ
positive none = none
positive (some n) = if leb n i64_max then some (pos n) else none

abbrev negative : Option ℕ → Option ℤ
negative none = none
negative (some zero) = some (pos 0)
negative (some (suc n)) = if leb n i64_max then some (negsuc n) else none

-- `s.parse::<i64>().ok()`
unfoldable pub parse_i64 : Bytes → Option ℤ
unfolding parse_digits
parse_i64 [] = none
parse_i64 (c ∷ s) =
    if c == b'-'
    then negative (parse_digits s)
    else if c == b'+'
    then positive (parse_digits s)
    else positive (parse_digits (c ∷ s))

-- `s.parse::<u64>().ok()`, the same for usize on a 64-bit machine.
abbrev below_u64 : Option ℕ → Option ℕ
below_u64 none = none
below_u64 (some n) = if ltb n u64_modulus then some n else none

unfoldable pub parse_u64 : Bytes → Option ℕ
unfolding parse_digits
parse_u64 [] = none
parse_u64 (c ∷ s) =
    if c == b'+' then below_u64 (parse_digits s) else below_u64 (parse_digits (c ∷ s))

-- `std::str::from_utf8(s).ok()?.trim().parse::<i64>().ok()`
unfoldable pub parse_text : Bytes → Option ℤ
unfolding parse_i64 trim is_utf8
parse_text s = if is_utf8 s then parse_i64 (trim s) else none

parses : parse_text (codes " -42 ") ≡ some (negsuc 41)
unfolding parse_text
parses = refl

parse_minimum : parse_i64 (codes "-9223372036854775808") ≡ some (negsuc i64_max)
unfolding parse_i64
parse_minimum = refl

parse_overflow : parse_i64 (codes "9223372036854775808") ≡ none
unfolding parse_i64
parse_overflow = refl

prints : int_to_string (negsuc 1023) ≡ codes "-1024"
unfolding int_to_string
prints = refl
