-- ===== src/Std/Integer/Laws.antt =====
-- Every i64 is read back from its decimal text.
use native.Mathlib.Nat.{pow-suc}
use shrikedb.Prelude.{
  ℕ, zero, suc, ◌+◌, ◌-◌, ◌*◌, ◌/◌, ◌%◌, ◌^◌, ◌≤◌, ◌<◌, ◌≡◌, ◌∙◌, some, [], ◌∷◌, ◌++◌, arith, ltb,
  length, length-append, Bool-cases, inl, inr,
}
use shrikedb.Prelude.Int.{ℤ, pos, negsuc}
use shrikedb.Std.Bytes.{Bytes}
use shrikedb.Std.Text.Laws.{Printable, Printable-append}
use shrikedb.Std.Integer.{
  i64_max, IsI64, decimal, nat_to_string, int_to_string, digits_value, parse_i64,
}

-- The first byte of a decimal text is a digit.
abbrev StartsDigit : Bytes → Type 0
StartsDigit [] = ⊥
StartsDigit (c ∷ s) = (b'0' ≤ c) × (c ≤ b'9')

StartsDigit-append : (s t : Bytes) → StartsDigit s → StartsDigit (s ++ t)
StartsDigit-append [] t h = absurd h
StartsDigit-append (c ∷ s) t h = h

decimal-StartsDigit : (f n : ℕ) → StartsDigit (decimal (suc f) n)
unfolding decimal
decimal-StartsDigit zero n = elim (Bool-cases (ltb n 10)) [
  | inl e ↦ rw e (ground arith)
  | inr e ↦ rw e (omega arith)
]
decimal-StartsDigit (suc f) n = elim (Bool-cases (ltb n 10)) [
  | inl e ↦ rw e (ground arith)
  | inr e ↦ rw e (StartsDigit-append _ _ (decimal-StartsDigit f (n / 10)))
]

digits_value-append :
    (acc m : ℕ) (s t : Bytes)
    → digits_value acc s ≡ some m
    → digits_value acc (s ++ t) ≡ digits_value m t
unfolding digits_value
digits_value-append acc m [] t h = ground arith
digits_value-append acc m (c ∷ s) t h =
    ground (arith, digits_value-append (acc * 10 + (c - b'0')) m s t)

last_digit : (n : ℕ) → 10 ≤ n → digits_value (n / 10) ((b'0' + n % 10) ∷ []) ≡ some n
unfolding digits_value
last_digit n h = ground arith

digits_value-decimal : (f n : ℕ) → n < 10 ^ suc f → digits_value 0 (decimal (suc f) n) ≡ some n
unfolding digits_value decimal
digits_value-decimal zero n h = ground arith
digits_value-decimal (suc f) n h = elim (Bool-cases (ltb n 10)) [
  | inl e ↦ rw e (ground arith)
  | inr e ↦
      let rest =
        digits_value-append 0 (n / 10) (decimal (suc f) (n / 10)) ((b'0' + n % 10) ∷ [])
          (digits_value-decimal f (n / 10) (omega (arith, pow-suc 10 (suc f)))) in
      rw e (rest ∙ last_digit n (ground arith))
]

parse_i64-digits :
    (s : Bytes) (n : ℕ)
    → StartsDigit s
    → digits_value 0 s ≡ some n
    → n ≤ i64_max
    → parse_i64 s ≡ some (pos n)
unfolding parse_i64
parse_i64-digits [] n d h fits = absurd d
parse_i64-digits (c ∷ s) n d h fits = ground arith

parse_i64-minus :
    (s : Bytes) (n : ℕ)
    → StartsDigit s
    → digits_value 0 s ≡ some (suc n)
    → n ≤ i64_max
    → parse_i64 (b'-' ∷ s) ≡ some (negsuc n)
unfolding parse_i64
parse_i64-minus [] n d h fits = absurd d
parse_i64-minus (c ∷ s) n d h fits = ground arith

-- The text of an i64 parses to that number.
pub parse_i64-int_to_string : (z : ℤ) → IsI64 z → parse_i64 (int_to_string z) ≡ some z
unfolding int_to_string
parse_i64-int_to_string (pos n) fits =
    parse_i64-digits (decimal 20 n) n (decimal-StartsDigit 19 n)
      (digits_value-decimal 19 n (omega arith)) fits
parse_i64-int_to_string (negsuc n) fits =
    parse_i64-minus (decimal 20 (suc n)) n (decimal-StartsDigit 19 (suc n))
      (digits_value-decimal 19 (suc n) (omega arith)) fits

length-decimal : (f n : ℕ) → length (decimal f n) ≤ f
unfolding decimal
length-decimal zero n = omega arith
length-decimal (suc f) n = elim (Bool-cases (ltb n 10)) [
  | inl one ↦ rw one (omega arith)
  | inr more ↦
      rw (more, length-append (decimal f (n / 10)) ((b'0' + n % 10) ∷ []))
        (omega (arith, length-decimal f (n / 10)))
]

-- The text of a u64 with its sign is short.
pub length-int_to_string : (z : ℤ) → length (int_to_string z) ≤ 21
unfolding int_to_string nat_to_string
length-int_to_string (pos n) = omega (arith, length-decimal 20 n)
length-int_to_string (negsuc n) = omega (arith, length-decimal 20 (suc n))

decimal-Printable : (f n : ℕ) → Printable (decimal f n)
unfolding decimal
decimal-Printable zero n = tt
decimal-Printable (suc f) n = elim (Bool-cases (ltb n 10)) [
  | inl one ↦ rw one (ground arith, ground arith, tt)
  | inr more ↦ rw more (
      Printable-append (decimal f (n / 10)) ((b'0' + n % 10) ∷ []) (decimal-Printable f (n / 10))
        (ground arith, ground arith, tt))
]

pub int_to_string-Printable : (z : ℤ) → Printable (int_to_string z)
unfolding int_to_string nat_to_string
int_to_string-Printable (pos n) = decimal-Printable 20 n
int_to_string-Printable (negsuc n) = (ground arith, ground arith, decimal-Printable 20 (suc n))
