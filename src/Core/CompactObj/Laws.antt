-- ===== src/Core/CompactObj/Laws.antt =====
-- Keys and values keep the bytes that they are made from.
use shrikedb.Prelude.{
  ◌≡◌, refl, ap, true, Option, none, some, List, [], ◌∷◌, ◌++◌, arith, length, take, replicate,
  Bool-cases, inl, inr, ◌-◌,
}
use shrikedb.Prelude.Int.{ℤ}
use shrikedb.Std.Bytes.{Bytes, bytes_eq, bytes_eq_refl, bytes_eq_sound}
use shrikedb.Std.Integer.{int_to_string, parse_text}
use shrikedb.Core.Key.{Key, bytes_eq_symm, bytes_eq_congr}
use shrikedb.Core.CompactObj.{
  PrimeKey, PrimeValue, new_key, key_bytes, key_eq, as_bytes, strlen, is_string, ensure_string,
  from_parsed, from_bytes, integer,
}

take-append_length {ℓ} : {A : Type ℓ} (xs ys : List A) → take (length xs) (xs ++ ys) ≡ xs
take-append_length [] ys = refl
take-append_length (x ∷ xs) ys = ap (λ t. x ∷ t) (take-append_length xs ys)

-- A key gives back the bytes that it was made from, whether it is stored inline or on the heap.
pub key_bytes-new_key : (d : Bytes) → key_bytes (new_key d) ≡ d
unfolding new_key key_bytes
key_bytes-new_key d = ground (arith, take-append_length d (replicate (15 - length d) 0))

pub key_eq_refl : (a : PrimeKey) → key_eq a a ≡ true
unfolding key_eq
key_eq_refl a = bytes_eq_refl (key_bytes a)

pub key_eq_symm : (a b : PrimeKey) → key_eq a b ≡ key_eq b a
unfolding key_eq
key_eq_symm a b = bytes_eq_symm (key_bytes a) (key_bytes b)

pub key_eq_congr : (a b c : PrimeKey) → key_eq a b ≡ true → key_eq a c ≡ key_eq b c
unfolding key_eq
key_eq_congr a b c = bytes_eq_congr (key_bytes a) (key_bytes b) (key_bytes c)

instance abbrev pub prime_key : Key PrimeKey
prime_key = record {
  equal = key_eq;
  equal_refl = key_eq_refl;
  equal_symm = key_eq_symm;
  equal_congr = key_eq_congr;
}

pub key_eq-new_key : (a b : Bytes) → key_eq (new_key a) (new_key b) ≡ bytes_eq a b
unfolding key_eq
key_eq-new_key a b = rw (key_bytes-new_key a, key_bytes-new_key b)

abbrev Keeps : Bytes → PrimeValue → Type 0
Keeps d v = (as_bytes v ≡ d) × (is_string v ≡ true) × (strlen v ≡ length d)

from_parsed-Keeps : (d : Bytes) (o : Option ℤ) → Keeps d (from_parsed d o)
unfolding as_bytes is_string strlen
from_parsed-Keeps d none = (refl, refl, refl)
from_parsed-Keeps d (some n) = elim (Bool-cases (bytes_eq (int_to_string n) d)) [
  | inl e ↦ let same = bytes_eq_sound (int_to_string n) d e in rw e (same, refl, ap length same)
  | inr e ↦ rw e (refl, refl, refl)
]

-- Storing bytes with `from_bytes` keeps them: `as_bytes` reads back exactly the bytes stored, the
-- value counts as a string, and its length is theirs.
pub as_bytes-from_bytes :
    (d : Bytes)
    → (as_bytes (from_bytes d) ≡ d)
      × (is_string (from_bytes d) ≡ true)
      × (strlen (from_bytes d) ≡ length d)
unfolding from_bytes
as_bytes-from_bytes d = from_parsed-Keeps d (parse_text d)

-- APPEND and SETRANGE work on the text of an integer: `ensure_string` keeps the bytes.
pub as_bytes-ensure_string : (v : PrimeValue) → as_bytes (ensure_string v) ≡ as_bytes v
unfolding as_bytes ensure_string
as_bytes-ensure_string (integer n) = refl
as_bytes-ensure_string _ = refl
