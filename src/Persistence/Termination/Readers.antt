-- ===== src/Persistence/Termination/Readers.antt =====
-- What the readers of rdb_load.rs take of the reader.
use shrikedb.Prelude.{
  ℕ, ◌+◌, ◌/◌, ◌%◌, ◌≤◌, Bool-cases, inl, inr, Bool, true, false, arith, length, length-drop, leb,
  leb→le, ◌==◌, if◌then◌else◌,
}
use shrikedb.Std.Bytes.{Bytes}
use shrikedb.Persistence.Load.{
  RdbLoadError, RdbLoader, Result, ok, fail, stuck, M, pure, throw, ◌>>=◌, read_exact, read_byte,
  read_u64_le_no_crc, length_form, read_length_with_encoding, read_length, read_encoded,
  read_string, string_form,
}

-- The result is not for lack of fuel, and at least `n` bytes are read of a reader with `len`.
abbrev pub Left : {A : Type 0} → ℕ → ℕ → Result (A × RdbLoader) → Type 0
Left n len (ok (a, l)) = length l.reader + n ≤ len
Left n len (fail e) = Unit
Left n len stuck = ⊥

pub record Takes {A : Type 0} (n : ℕ) (m : M A) : Type 0 where
  pub left : (l : RdbLoader) → Left n (length l.reader) (m l)

pub pure-Takes : {A : Type 0} (a : A) → Takes 0 (pure a)
pure-Takes a = record { left = λ l. omega arith }

pub throw-Takes : {A : Type 0} (n : ℕ) (e : RdbLoadError) → Takes n (throw {A = A} e)
throw-Takes n e = record { left = λ l. tt }

pub Left-lower :
    {A : Type 0} (n m len : ℕ) (r : Result (A × RdbLoader))
    → Left 0 m r
    → m + n ≤ len
    → Left n len r
Left-lower n m len (ok (a, l)) p q = omega arith
Left-lower n m len (fail e) p q = tt
Left-lower n m len stuck p q = p

pub Left->>= :
    {A B : Type 0} (n len : ℕ) (r : Result (A × RdbLoader)) (k : A → M B)
    → Left n len r
    → ((a : A) → Takes 0 (k a))
    → Left n len (elim r [ ok (a, l') ↦ k a l' | fail e ↦ fail e | stuck ↦ stuck ])
Left->>= n len (ok (a, l)) k h hk = Left-lower n (length l.reader) len (k a l) ((hk a).left l) h
Left->>= n len (fail e) k h hk = tt
Left->>= n len stuck k h hk = h

pub Takes->>= :
    {A B : Type 0} {n : ℕ} {m : M A} (k : A → M B)
    → Takes n m
    → ((a : A) → Takes 0 (k a))
    → Takes n (m >>= k)
Takes->>= {n} {m} k hm hk = record {
  left = λ l. Left->>= n (length l.reader) (m l) k (hm.left l) hk;
}

pub Left-weaken :
    {A : Type 0} (n len : ℕ) (r : Result (A × RdbLoader)) → Left n len r → Left 0 len r
Left-weaken n len (ok (a, l)) h = omega arith
Left-weaken n len (fail e) h = tt
Left-weaken n len stuck h = h

pub Takes-weaken : {A : Type 0} {n : ℕ} {m : M A} → Takes n m → Takes 0 m
Takes-weaken {n} {m} h = record { left = λ l. Left-weaken n (length l.reader) (m l) (h.left l) }

pub if-Takes :
    {A : Type 0} {n : ℕ} {m m' : M A} (b : Bool)
    → Takes n m
    → Takes n m'
    → Takes n (if b then m else m')
if-Takes true h h' = h
if-Takes false h h' = h'

pub read_exact-Takes : (n : ℕ) → Takes n (read_exact n)
unfolding read_exact
read_exact-Takes n = record {
  left = λ l. elim (Bool-cases (leb n (length l.reader))) [
    | inl e ↦
        rw (read_exact, e) (omega (arith, length-drop n l.reader, leb→le n (length l.reader) e))
    | inr e ↦ rw (read_exact, e) tt
  ];
}

pub no_crc-Takes : Takes 0 read_u64_le_no_crc
unfolding read_u64_le_no_crc
no_crc-Takes = record {
  left = λ l. elim (Bool-cases (leb 8 (length l.reader))) [
    | inl e ↦ rw (read_u64_le_no_crc, e) (omega (arith, length-drop 8 l.reader))
    | inr e ↦ rw (read_u64_le_no_crc, e) tt
  ];
}

pub read_byte-Takes : Takes 1 read_byte
unfolding read_byte
read_byte-Takes = Takes->>= _ (read_exact-Takes 1) (λ buf. pure-Takes _)

pub some_bytes :
    {A : Type 0} (n : ℕ) (f : Bytes → A) → Takes 0 (read_exact n >>= λ buf. pure (f buf))
some_bytes n f = Takes->>= _ (Takes-weaken (read_exact-Takes n)) (λ buf. pure-Takes (f buf))

pub length_form-Takes : (first : ℕ) → Takes 0 (length_form first)
unfolding length_form
length_form-Takes first =
    let kind = first / 64 in
    let low = first % 64 in
    if-Takes (kind == 0) (pure-Takes _) (
      if-Takes (kind == 1) (Takes->>= _ (Takes-weaken read_byte-Takes) (λ second. pure-Takes _)) (
        if-Takes (kind == 2)
          (if-Takes (low == 0) (some_bytes 4 _)
            (if-Takes (low == 1) (some_bytes 8 _) (throw-Takes 0 _)))
          (pure-Takes _)))

pub read_length_with_encoding-Takes : Takes 0 read_length_with_encoding
unfolding read_length_with_encoding
read_length_with_encoding-Takes = Takes->>= _ (Takes-weaken read_byte-Takes) length_form-Takes

pub read_length-Takes : Takes 0 read_length
unfolding read_length
read_length-Takes = Takes->>= _ read_length_with_encoding-Takes (λ r. pure-Takes _)

pub read_encoded-Takes : (kind : ℕ) → Takes 0 (read_encoded kind)
unfolding read_encoded
read_encoded-Takes kind =
    if-Takes (kind == 0) (Takes->>= _ (Takes-weaken read_byte-Takes) (λ v. pure-Takes _)) (
      if-Takes (kind == 1) (some_bytes 2 _) (
        if-Takes (kind == 2) (some_bytes 4 _) (
          if-Takes (kind == 3)
            (Takes->>= _ read_length-Takes
              (λ clen. Takes->>= _ read_length-Takes (λ ulen. some_bytes clen _)))
            (throw-Takes 0 _))))

pub read_string-Takes : Takes 0 read_string
unfolding read_string
read_string-Takes = Takes->>= _ read_length_with_encoding-Takes (λ r. form r.0 r.1)
  where
    form : (len : ℕ) (encoded : Bool) → Takes 0 (string_form len encoded)
    form len true = read_encoded-Takes len
    form len false = Takes-weaken (read_exact-Takes len)
