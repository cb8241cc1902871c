-- ===== src/Persistence/RoundTrip/Strings.antt =====
-- `read_length` of `write_length`, and `read_string` of `write_string`.
use mathlib.Core.Path.{subst}
use mathlib.Core.List.{append-nil}
use shrikedb.Prelude.{
  ℕ, suc, ◌+◌, ◌*◌, ◌/◌, ◌%◌, ◌^◌, ◌≡◌, ◌<◌, refl, sym, ap, true, false, Option, none, some, [],
  ◌∷◌, ◌++◌, ltb, leb, Bool-cases, inl, inr, arith, length,
}
use shrikedb.Prelude.Int.{ℤ}
use shrikedb.Std.Bytes.{Bytes, bytes_eq_sound}
use shrikedb.Std.Integer.{int_to_string, parse_i64}
use shrikedb.Std.Integer.Laws.{length-int_to_string}
use shrikedb.Persistence.Format.{le_bytes, from_le, be_bytes, as_word, signed}
use shrikedb.Persistence.Format.Laws.{
  from_le-le_bytes, from_be-be_bytes, length-le_bytes, length-be_bytes, as_word-lt, signed-as_word,
}
use shrikedb.Persistence.Save.{
  write_byte, write_length, write_integer_as_string, write_plain, write_string, try_parse_integer,
  same_text, fits,
}
use shrikedb.Persistence.Load.{
  length_form, read_length_with_encoding, read_length, read_encoded, read_string,
}
use shrikedb.Persistence.RoundTrip.Reads.{
  Reads, Reads-pure, Reads->>=, read_exact-Reads, read_byte-Reads,
}

form_6bit : {db : ℕ} (b : ℕ) → b < 64 → Reads db db [] (length_form b) (b, false)
unfolding length_form
form_6bit b h =
    let kind : b / 64 ≡ 0 = omega arith in
    rw (length_form, kind) (Reads-pure (ap (λ n. (n, false)) (omega arith)))

form_encoded :
    {db : ℕ} (kind : ℕ) → kind < 64 → Reads db db [] (length_form (0xC0 + kind)) (kind, true)
unfolding length_form
form_encoded kind h =
    let tag : (0xC0 + kind) / 64 ≡ 3 = omega arith in
    rw (length_form, tag) (Reads-pure (ap (λ n. (n, true)) (omega arith)))

form_14bit :
    {db : ℕ} (len : ℕ)
    → len < 16384
    → Reads db db (write_byte (len % 256)) (length_form (0x40 + len / 256)) (len, false)
unfolding length_form
form_14bit len h =
    let kind : (0x40 + len / 256) / 64 ≡ 1 = omega arith in
    rw (length_form, kind)
      (Reads->>= _ (read_byte-Reads (len % 256)) (Reads-pure (ap (λ n. (n, false)) (omega arith))))

form_32bit :
    {db : ℕ} (len : ℕ)
    → len < 2 ^ 32
    → Reads db db (be_bytes 4 len ∷ []) (length_form 0x80) (len, false)
unfolding length_form
form_32bit len h =
    Reads->>= _ (read_exact-Reads (be_bytes 4 len) (sym (length-be_bytes 4 len)))
      (Reads-pure (ap (λ n. (n, false)) (from_be-be_bytes 4 len h)))

form_64bit :
    {db : ℕ} (len : ℕ)
    → len < 2 ^ 64
    → Reads db db (be_bytes 8 len ∷ []) (length_form 0x81) (len, false)
unfolding length_form
form_64bit len h =
    Reads->>= _ (read_exact-Reads (be_bytes 8 len) (sym (length-be_bytes 8 len)))
      (Reads-pure (ap (λ n. (n, false)) (from_be-be_bytes 8 len h)))

pub write_length-Reads :
    {db : ℕ} (len : ℕ)
    → len < 2 ^ 64
    → Reads db db (write_length len) read_length_with_encoding (len, false)
unfolding write_length read_length_with_encoding
write_length-Reads len h = elim (Bool-cases (ltb len 64)) [
  | inl a ↦ rw (write_length, a) (Reads->>= _ (read_byte-Reads len) (form_6bit len (ground arith)))
  | inr a ↦ elim (Bool-cases (ltb len 16384)) [
    | inl b ↦
        rw (write_length, a, b)
          (Reads->>= _ (read_byte-Reads (0x40 + len / 256)) (form_14bit len (ground arith)))
    | inr b ↦ elim (Bool-cases (ltb len (2 ^ 32))) [
      | inl c ↦
          rw (write_length, a, b, c)
            (Reads->>= _ (read_byte-Reads 0x80) (form_32bit len (ground arith)))
      | inr c ↦ rw (write_length, a, b, c) (Reads->>= _ (read_byte-Reads 0x81) (form_64bit len h))
    ]
  ]
]

pub read_length-Reads :
    {db : ℕ} (len : ℕ) → len < 2 ^ 64 → Reads db db (write_length len) read_length len
unfolding read_length
read_length-Reads {db} len h =
    rw (sym (append-nil (write_length len)))
      (Reads->>= _ (write_length-Reads len h) (Reads-pure refl))

write_plain-Reads :
    {db : ℕ} (d : Bytes) → length d < 2 ^ 64 → Reads db db (write_plain d) read_string d
unfolding read_string
write_plain-Reads d h = Reads->>= _ (write_length-Reads (length d) h) (read_exact-Reads d refl)

kind-Reads :
    {db : ℕ} (kind : ℕ)
    → kind < 64
    → Reads db db (write_byte (0xC0 + kind)) read_length_with_encoding (kind, true)
unfolding read_length_with_encoding length_form
kind-Reads kind h = Reads->>= _ (read_byte-Reads (0xC0 + kind)) (form_encoded kind h)

-- The text of the word of `size` bytes.
word_text :
    (n : ℤ) (size h : ℕ)
    → 2 * suc h ≡ 256 ^ size
    → fits h n ≡ true
    → int_to_string (signed (2 * suc h) (from_le (le_bytes size (as_word (2 * suc h) n))))
      ≡ int_to_string n
word_text n size h e fit = ap int_to_string (
    rw
      (from_le-le_bytes size (as_word (2 * suc h) n)
        (rw (sym e) (as_word-lt (2 * suc h) n (omega arith))))
      (signed-as_word h n fit))

module _ {db : ℕ} (n : ℤ) where
  int8-Reads :
      fits 127 n ≡ true
      → Reads db db (write_byte 0xC0 ++ write_byte (as_word 256 n)) read_string (int_to_string n)
  unfolding read_string read_encoded
  int8-Reads h = Reads->>= _ (kind-Reads 0 (omega arith)) (
      Reads->>= _ (read_byte-Reads (as_word 256 n))
        (Reads-pure (ap int_to_string (signed-as_word 127 n h))))

  int16-Reads :
      fits 32767 n ≡ true
      → Reads db db
          (write_byte 0xC1 ++ (le_bytes 2 (as_word 65536 n) ∷ []))
          read_string
          (int_to_string n)
  unfolding read_string read_encoded
  int16-Reads h = Reads->>= _ (kind-Reads 1 (omega arith)) (
      Reads->>= _
        (read_exact-Reads (le_bytes 2 (as_word 65536 n))
          (sym (length-le_bytes 2 (as_word 65536 n))))
        (Reads-pure (word_text n 2 32767 refl h)))

  int32-Reads :
      fits 2147483647 n ≡ true
      → Reads db db
          (write_byte 0xC2 ++ (le_bytes 4 (as_word (2 ^ 32) n) ∷ []))
          read_string
          (int_to_string n)
  unfolding read_string read_encoded
  int32-Reads h = Reads->>= _ (kind-Reads 2 (omega arith)) (
      Reads->>= _
        (read_exact-Reads (le_bytes 4 (as_word (2 ^ 32) n))
          (sym (length-le_bytes 4 (as_word (2 ^ 32) n))))
        (Reads-pure (word_text n 4 2147483647 refl h)))

pub write_integer-Reads :
    {db : ℕ} (n : ℤ) → Reads db db (write_integer_as_string n) read_string (int_to_string n)
unfolding write_integer_as_string
write_integer-Reads n = elim (Bool-cases (fits 127 n)) [
  | inl a ↦ rw (write_integer_as_string, a) (int8-Reads n a)
  | inr a ↦ elim (Bool-cases (fits 32767 n)) [
    | inl b ↦ rw (write_integer_as_string, a, b) (int16-Reads n b)
    | inr b ↦ elim (Bool-cases (fits 2147483647 n)) [
      | inl c ↦ rw (write_integer_as_string, a, b, c) (int32-Reads n c)
      | inr c ↦
          rw (write_integer_as_string, a, b, c)
            (write_plain-Reads (int_to_string n) (omega (arith, length-int_to_string n)))
    ]
  ]
]

same_text_sound : (d : Bytes) (r : Option ℤ) (n : ℤ) → same_text d r ≡ some n → int_to_string n ≡ d
same_text_sound d none n h = cc
same_text_sound d (some m) n h = ground (arith, bytes_eq_sound (int_to_string m) d)

try_parse_integer_sound : (d : Bytes) (n : ℤ) → try_parse_integer d ≡ some n → int_to_string n ≡ d
unfolding try_parse_integer
try_parse_integer_sound d n h = ground (arith, same_text_sound d (parse_i64 d) n)

write_parsed-Reads :
    {db : ℕ} (d : Bytes) (r : Option ℤ)
    → ((n : ℤ) → r ≡ some n → int_to_string n ≡ d)
    → length d < 2 ^ 64
    → Reads db db
        (elim r [ none ↦ write_plain d | some n ↦ write_integer_as_string n ])
        read_string
        d
write_parsed-Reads d none sound h = write_plain-Reads d h
write_parsed-Reads {db} d (some n) sound h =
    subst (Reads db db (write_integer_as_string n) read_string) (sound n refl)
      (write_integer-Reads n)

-- The loader reads a string of fewer than 2 ^ 64 bytes as it was written, in each of the forms of a
-- length and of an integer, whatever follows it, and counts the same checksum.
pub write_string-Reads :
    {db : ℕ} (d : Bytes) → length d < 2 ^ 64 → Reads db db (write_string d) read_string d
unfolding write_string
write_string-Reads d h = elim (Bool-cases (leb (length d) 11)) [
  | inl short ↦
      rw (write_string, short)
        (write_parsed-Reads d (try_parse_integer d) (try_parse_integer_sound d) h)
  | inr long ↦ rw (write_string, long) (write_plain-Reads d h)
]
