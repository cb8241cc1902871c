-- ===== src/Persistence/Termination.antt =====
-- The fuel of `load_all` is enough.
pub mod Readers
use mathlib.Core.Logic.{◌≢◌}
use shrikedb.Prelude.{
  ℕ, zero, suc, ◌+◌, ◌*◌, ◌/◌, ◌%◌, ◌^◌, ◌≡◌, ◌≤◌, ◌<◌, refl, sym, ap, Option, none, some,
  Bool-cases, inl, inr, Bool, true, false, List, [], ◌∷◌, ◌++◌, arith, length, length-drop, take,
  drop, leb, ◌&&◌, ltb, ◌==◌, if◌then◌else◌,
}
use shrikedb.Std.Bytes.{Bytes, codes, bytes_eq}
use shrikedb.Std.Integer.{parse_u64}
use shrikedb.Persistence.Format.{
  type_string, opcode_slot_info, opcode_module_aux, opcode_idle, opcode_freq, opcode_aux,
  opcode_resizedb, opcode_expiretime_ms, opcode_expiretime, opcode_selectdb, opcode_eof, from_le,
}
use shrikedb.Persistence.Load.{
  RdbEntry, RdbLoadError, RdbLoader, Result, ok, fail, stuck, M, pure, throw, ◌>>=◌, ◌>>◌,
  result_of, cons_entry, finished, go_on, entry, Round, read_exact, read_byte, read_u32_le,
  read_u64_le, read_u64_le_no_crc, length_form, read_length_with_encoding, read_length,
  read_encoded, read_string, read_entry_with_type, read_typed_entry, the_db, select, string_form,
  crc_mismatch, bad_magic, unsupported_version, version_of, the_crc, read_round, check_eof,
  on_opcode, load_entries, read_header, load_all, new_loader,
}
use shrikedb.Persistence.Termination.Readers.{
  Left, Takes, pure-Takes, throw-Takes, Left-lower, Left->>=, Takes->>=, Left-weaken, Takes-weaken,
  if-Takes, read_exact-Takes, no_crc-Takes, read_byte-Takes, some_bytes, length_form-Takes,
  read_length_with_encoding-Takes, read_length-Takes, read_encoded-Takes, read_string-Takes,
}

the_db-Takes : Takes 0 the_db
the_db-Takes = record { left = λ l. omega arith }

the_crc-Takes : Takes 0 the_crc
the_crc-Takes = record { left = λ l. omega arith }

select-Takes : (db : ℕ) → Takes 0 (select db)
select-Takes db = record { left = λ l. omega arith }

read_entry_with_type-Takes :
    (type_byte : ℕ) (expire : Option ℕ) → Takes 0 (read_entry_with_type type_byte expire)
unfolding read_entry_with_type
read_entry_with_type-Takes type_byte expire = Takes->>= _ read_string-Takes (λ key.
    if-Takes (type_byte == type_string)
      (Takes->>= _ read_string-Takes (λ d. Takes->>= _ the_db-Takes (λ db. pure-Takes _)))
      (pure-Takes go_on))

read_typed_entry-Takes : (expire : Option ℕ) → Takes 0 (read_typed_entry expire)
unfolding read_typed_entry
read_typed_entry-Takes expire =
    Takes->>= _ (Takes-weaken read_byte-Takes)
      (λ type_byte. read_entry_with_type-Takes type_byte expire)

check_eof-Takes : Takes 0 check_eof
unfolding check_eof
check_eof-Takes = Takes->>= _ the_crc-Takes (λ expected. Takes->>= _ no_crc-Takes (λ stored.
    if-Takes (stored == 0) (pure-Takes finished)
      (if-Takes (stored == expected) (pure-Takes finished) (throw-Takes 0 crc_mismatch))))

-- A reader and a round that goes on.
skip-Takes : {A : Type 0} {m : M A} → Takes 0 m → Takes 0 (m >>= λ a. pure go_on)
skip-Takes h = Takes->>= _ h (λ a. pure-Takes go_on)

on_opcode-Takes : (opcode : ℕ) → Takes 0 (on_opcode opcode)
unfolding on_opcode read_u32_le read_u64_le
on_opcode-Takes opcode = if-Takes (opcode == opcode_eof) check_eof-Takes (
    if-Takes (opcode == opcode_selectdb)
      (Takes->>= _ read_length-Takes (λ db. skip-Takes (select-Takes (db % 2 ^ 32))))
      (if-Takes (opcode == opcode_resizedb)
        (Takes->>= _ read_length-Takes (λ n. skip-Takes read_length-Takes))
        (if-Takes (opcode == opcode_aux)
          (Takes->>= _ read_string-Takes (λ key. skip-Takes read_string-Takes))
          (if-Takes (opcode == opcode_expiretime)
            (Takes->>= _ (some_bytes 4 from_le)
              (λ secs. read_typed_entry-Takes (some (secs * 1000))))
            (if-Takes (opcode == opcode_expiretime_ms)
              (Takes->>= _ (some_bytes 8 from_le) (λ ms. read_typed_entry-Takes (some ms)))
              (if-Takes (opcode == opcode_freq) (skip-Takes (Takes-weaken read_byte-Takes)) (
                if-Takes (opcode == opcode_idle) (skip-Takes read_length-Takes) (
                  if-Takes (leb opcode_slot_info opcode && leb opcode opcode_module_aux)
                    (throw-Takes 0 _) (read_entry_with_type-Takes opcode none)))))))))

read_round-Takes : Takes 1 read_round
unfolding read_round
read_round-Takes = Takes->>= _ read_byte-Takes on_opcode-Takes

-- The loop after a round.
abbrev after_round : ℕ → Result (Round × RdbLoader) → Result (List RdbEntry × RdbLoader)
after_round f (ok (finished, l)) = ok ([], l)
after_round f (ok (go_on, l)) = load_entries f l
after_round f (ok (entry e, l)) = cons_entry e (load_entries f l)
after_round f (fail e) = fail e
after_round f stuck = stuck

cons_entry-Left :
    (e : RdbEntry) (len : ℕ) (r : Result (List RdbEntry × RdbLoader))
    → Left 0 len r
    → Left 0 len (cons_entry e r)
cons_entry-Left e len (ok (es, l)) h = h
cons_entry-Left e len (fail x) h = h
cons_entry-Left e len stuck h = h

after_round-Left :
    (f len : ℕ) (r : Result (Round × RdbLoader))
    → Left 1 len r
    → len < suc f
    → ((l : RdbLoader) → length l.reader < f → Left 0 (length l.reader) (load_entries f l))
    → Left 0 len (after_round f r)
after_round-Left f len (ok (finished, l)) h p go = omega arith
after_round-Left f len (ok (go_on, l)) h p go =
    Left-lower 0 (length l.reader) len (load_entries f l) (go l (omega arith)) (omega arith)
after_round-Left f len (ok (entry e, l)) h p go =
    cons_entry-Left e len (load_entries f l)
      (Left-lower 0 (length l.reader) len (load_entries f l) (go l (omega arith)) (omega arith))
after_round-Left f len (fail e) h p go = tt
after_round-Left f len stuck h p go = h

load_entries-Left :
    (f : ℕ) (l : RdbLoader) → length l.reader < f → Left 0 (length l.reader) (load_entries f l)
unfolding load_entries
load_entries-Left zero l p = absurd (omega arith)
load_entries-Left (suc f) l p =
    after_round-Left f (length l.reader) (read_round l) (read_round-Takes.left l) p
      (load_entries-Left f)

version_of-Takes : (v : Option ℕ) → Takes 0 (version_of v)
version_of-Takes none = throw-Takes 0 bad_magic
version_of-Takes (some v) =
    if-Takes (ltb v (2 ^ 32))
      (if-Takes (ltb 12 v) (throw-Takes 0 (unsupported_version v))
        (record { left = λ l. omega arith }))
      (throw-Takes 0 bad_magic)

read_header-Takes : Takes 0 read_header
unfolding read_header
read_header-Takes = Takes->>= _ (Takes-weaken (read_exact-Takes 5)) (λ magic.
    if-Takes (bytes_eq magic (codes "REDIS"))
      (Takes->>= _ (Takes-weaken (read_exact-Takes 4)) (λ ver. version_of-Takes (parse_u64 ver)))
      (throw-Takes 0 bad_magic))

result-Left :
    {A : Type 0} (n len : ℕ) (r : Result (A × RdbLoader)) → Left n len r → result_of r ≢ stuck
result-Left n len (ok (a, l)) h = λ e. cc
result-Left n len (fail x) h = λ e. cc
result-Left n len stuck h = absurd h

after_header-Left :
    (len : ℕ) (r : Result (ℕ × RdbLoader))
    → Left 0 len r
    → Left 0 len (elim r [ ok (v, l) ↦ load_entries (len + 1) l | fail e ↦ fail e | stuck ↦ stuck ])
after_header-Left len (ok (v, l)) h =
    Left-lower 0 (length l.reader) len (load_entries (len + 1) l)
      (load_entries-Left (len + 1) l (omega arith)) (omega arith)
after_header-Left len (fail e) h = tt
after_header-Left len stuck h = h

-- Every file is loaded, or refused with an error, within a number of rounds that is one more than
-- its bytes.
pub load_all-some : (file : Bytes) → load_all file ≢ stuck
unfolding load_all
load_all-some file = result-Left 0 (length file) _ (
    after_header-Left (length file) (read_header (new_loader file))
      (read_header-Takes.left (new_loader file)))
