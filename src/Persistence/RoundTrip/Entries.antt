-- ===== src/Persistence/RoundTrip/Entries.antt =====
-- A round of the loader on what the saver writes of a record, an entry or a mark of the file.
use native.Mathlib.Nat.{mod-eq_of_lt}
use shrikedb.Prelude.{ℕ, ◌%◌, ◌^◌, ◌<◌, refl, Option, none, some, [], ◌++◌, arith, length}
use shrikedb.Std.Bytes.{Bytes}
use shrikedb.Core.CompactObj.{from_bytes}
use shrikedb.Persistence.Format.{
  type_string, opcode_aux, opcode_selectdb, opcode_resizedb, opcode_expiretime_ms,
}
use shrikedb.Persistence.Save.{
  Chunks, write_byte, write_string, write_aux, write_select_db, write_resize_db, write_expiry,
}
use shrikedb.Persistence.Load.{
  RdbEntry, pure, select, the_db, read_string, read_entry_with_type, read_typed_entry, read_round,
  on_opcode, entry, go_on,
}
use shrikedb.Persistence.RoundTrip.Reads.{
  Reads, Reads-pure, Reads->>=, Reads-then, read_byte-Reads, read_u64_le-Reads,
}
use shrikedb.Persistence.RoundTrip.Strings.{read_length-Reads, write_string-Reads}

abbrev pub IsWord : ℕ → Type 0
IsWord n = n < 2 ^ 64

pub write_aux-Reads :
    {db : ℕ} (key value : Bytes)
    → IsWord (length key)
    → IsWord (length value)
    → Reads db db (write_aux key value) read_round go_on
unfolding write_aux read_round on_opcode
write_aux-Reads key value hk hv = Reads->>= _ (read_byte-Reads opcode_aux) (
    Reads->>= _ (write_string-Reads key hk)
      (Reads-then _ (write_string-Reads value hv) (Reads-pure refl)))

select-Reads : {from : ℕ} (db : ℕ) → db < 2 ^ 32 → Reads from db [] (select (db % 2 ^ 32)) tt
select-Reads db h = rw (mod-eq_of_lt h) (record { runs = λ crc version rest. refl })

the_db-Reads : {db : ℕ} → Reads db db [] the_db db
the_db-Reads = record { runs = λ crc version rest. refl }

pub write_select_db-Reads :
    {from : ℕ} (db : ℕ) → db < 2 ^ 32 → Reads from db (write_select_db db) read_round go_on
unfolding write_select_db read_round on_opcode
write_select_db-Reads db h = Reads->>= _ (read_byte-Reads opcode_selectdb) (
    Reads-then _ (read_length-Reads db (omega arith))
      (Reads-then (λ _. pure go_on) (select-Reads db h) (Reads-pure refl)))

pub write_resize_db-Reads :
    {db : ℕ} (n m : ℕ) → IsWord n → IsWord m → Reads db db (write_resize_db n m) read_round go_on
unfolding write_resize_db read_round on_opcode
write_resize_db-Reads n m hn hm =
    Reads->>= _ (read_byte-Reads opcode_resizedb) (
      Reads->>= _ (read_length-Reads n hn)
        (Reads-then _ (read_length-Reads m hm) (Reads-pure refl)))

abbrev pub ExpiryIsWord : Option ℕ → Type 0
ExpiryIsWord none = Unit
ExpiryIsWord (some ms) = IsWord ms

module _ (db : ℕ) (key : Bytes) (hk : IsWord (length key)) (value : Chunks) (d : Bytes)
    (reads : Reads db db value read_string d) where
  abbrev pub read_back : Option ℕ → RdbEntry
  read_back expire = record { db_index = db; key = key; value = from_bytes d; expire_ms = expire }

  typed-Reads :
      (expire : Option ℕ)
      → Reads db db
          (write_string key ++ value)
          (read_entry_with_type type_string expire)
          (entry (read_back expire))
  unfolding read_entry_with_type
  typed-Reads expire = Reads->>= _ (write_string-Reads key hk) (
      Reads-then _ reads (
        Reads-then (λ i. pure (entry (record (read_back expire) { db_index = i }))) the_db-Reads
          (Reads-pure refl)))

  pub entry-Reads :
      (expire : Option ℕ)
      → ExpiryIsWord expire
      → Reads db db
          (write_expiry expire ++ (write_byte type_string ++ (write_string key ++ value)))
          read_round
          (entry (read_back expire))
  unfolding read_round on_opcode read_typed_entry
  entry-Reads none h = Reads->>= _ (read_byte-Reads type_string) (typed-Reads none)
  entry-Reads (some ms) h = Reads->>= _ (read_byte-Reads opcode_expiretime_ms) (
      Reads->>= _ (read_u64_le-Reads ms h)
        (Reads->>= _ (read_byte-Reads type_string) (typed-Reads (some ms))))
