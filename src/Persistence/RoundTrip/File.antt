-- ===== src/Persistence/RoundTrip/File.antt =====
-- The entries of a file, from `save_rdb` to `load_all`.
use mathlib.Core.Path.{subst}
use mathlib.Core.List.{append_assoc}
use shrikedb.Prelude.{
  ℕ, zero, suc, ◌+◌, ◌^◌, ◌≡◌, ◌≤◌, ◌<◌, sym, Option, Bool-cases, inl, inr, none, some, List, [],
  ◌∷◌, ◌++◌, arith, length, ◌==◌, if◌then◌else◌,
}
use shrikedb.Std.Bytes.{Bytes}
use shrikedb.Std.Integer.{int_to_string}
use shrikedb.Core.CompactObj.{
  PrimeKey, PrimeValue, string, integer, list, set, hash, zset, is_string, as_bytes, from_bytes,
  new_key, key_bytes,
}
use shrikedb.Core.CompactObj.Laws.{key_bytes-new_key}
use shrikedb.Persistence.Format.{type_string}
use shrikedb.Persistence.Save.{
  Chunks, SnapshotEntry, write_key_value, write_entries, write_db, write_dbs, write_select_db,
  write_resize_db, db_entries, expire_count, write_string, write_integer_as_string, write_expiry,
  write_byte, write_aux,
}
use shrikedb.Persistence.Load.{RdbEntry, read_string}
use shrikedb.Persistence.RoundTrip.Reads.{concat, Reads}
use shrikedb.Persistence.RoundTrip.Strings.{write_string-Reads, write_integer-Reads}
use shrikedb.Persistence.RoundTrip.Entries.{
  IsWord, ExpiryIsWord, read_back, entry-Reads, write_select_db-Reads, write_resize_db-Reads,
}
use shrikedb.Persistence.RoundTrip.Loads.{Loads, Loads-end, Loads-go_on, Loads-entry}

-- A value that the file can hold, with its deadline: a string or an integer, or any other value with
-- no deadline.
abbrev pub ValueIsSaved : PrimeValue → Option ℕ → Type 0
ValueIsSaved (string d) expire = IsWord (length d)
ValueIsSaved (integer n) expire = Unit
ValueIsSaved _ none = Unit
ValueIsSaved _ (some ms) = ⊥

pub record IsSaved (e : SnapshotEntry) : Type 0 where
  pub key : IsWord (length e.key)
  pub deadline : ExpiryIsWord e.expire_ms
  pub value : ValueIsSaved e.value e.expire_ms

abbrev pub AllSaved : List SnapshotEntry → Type 0
AllSaved [] = Unit
AllSaved (e ∷ es) = IsSaved e × AllSaved es

-- The entries of one database after a restart: strings and integers, the others are gone.
abbrev pub restored : ℕ → List SnapshotEntry → List RdbEntry
restored db [] = []
restored db (e ∷ es) =
    let rest = restored db es in
    if is_string e.value
    then record {
      db_index = db;
      key = e.key;
      value = from_bytes (as_bytes e.value);
      expire_ms = e.expire_ms;
    }
      ∷ rest
    else rest

-- Those of the databases from `idx` on, of `n`.
abbrev pub restored_dbs : ℕ → ℕ → List SnapshotEntry → List RdbEntry
restored_dbs zero idx es = []
restored_dbs (suc n) idx es = restored idx (db_entries idx es) ++ restored_dbs n (suc idx) es

written :
    (expire : Option ℕ) (cs : Chunks)
    → 0 < length (concat (write_expiry expire ++ (write_byte type_string ++ cs)))
written none cs = omega arith
written (some ms) cs = omega arith

module _ (db : ℕ) (k : PrimeKey) (hk : IsWord (length (key_bytes k))) {ds : Chunks}
    {fs : List RdbEntry} (rest : Loads db ds fs) where
  text-Loads :
      (value : Chunks) (d : Bytes)
      → (reads : Reads db db value read_string d) → (expire : Option ℕ) → ExpiryIsWord expire
      → Loads db
          ((write_expiry expire
              ++ (write_byte type_string ++ (write_string (key_bytes k) ++ value)))
            ++ ds)
          (read_back db (key_bytes k) hk value d reads expire ∷ fs)
  text-Loads value d reads expire h =
      Loads-entry
        (write_expiry expire ++ (write_byte type_string ++ (write_string (key_bytes k) ++ value)))
        ds fs (written expire (write_string (key_bytes k) ++ value)) rest
        (read_back db (key_bytes k) hk value d reads expire)
        (entry-Reads db (key_bytes k) hk value d reads expire h)

  key_value-Loads :
      (value : PrimeValue) (expire : Option ℕ)
      → ExpiryIsWord expire
      → ValueIsSaved value expire
      → Loads db (write_key_value k value expire ++ ds) (
          restored db
            (record { db = db; key = key_bytes k; value = value; expire_ms = expire } ∷ [])
          ++ fs)
  unfolding write_key_value is_string as_bytes
  key_value-Loads (string d) expire h v =
      text-Loads (write_string d) d (write_string-Reads d v) expire h
  key_value-Loads (integer n) expire h v =
      text-Loads (write_integer_as_string n) (int_to_string n) (write_integer-Reads n) expire h
  key_value-Loads (list xs) none h v = rest
  key_value-Loads (set xs) none h v = rest
  key_value-Loads (hash xs) none h v = rest
  key_value-Loads (zset xs ys) none h v = rest
  key_value-Loads (list _) (some _) h v = elim v [ ]
  key_value-Loads (set _) (some _) h v = elim v [ ]
  key_value-Loads (hash _) (some _) h v = elim v [ ]
  key_value-Loads (zset _ _) (some _) h v = elim v [ ]

saved-Loads :
    (db : ℕ) {ds : Chunks} {fs : List RdbEntry} (e : SnapshotEntry)
    → IsSaved e
    → Loads db ds fs
    → Loads db
        (write_key_value (new_key e.key) e.value e.expire_ms ++ ds)
        (restored db (e ∷ []) ++ fs)
saved-Loads db {ds} {fs} e saved rest =
    subst
      (λ key.
        Loads db (write_key_value (new_key e.key) e.value e.expire_ms ++ ds)
          (restored db (record e { key = key } ∷ []) ++ fs))
      (key_bytes-new_key e.key)
      (key_value-Loads db (new_key e.key)
        (subst (λ key. IsWord (length key)) (sym (key_bytes-new_key e.key)) saved.key) rest e.value
        e.expire_ms saved.deadline saved.value)

restored_cons :
    (db : ℕ) (e : SnapshotEntry) (es : List SnapshotEntry)
    → restored db (e ∷ es) ≡ restored db (e ∷ []) ++ restored db es
restored_cons db e es = ground arith

write_entries-Loads :
    (db : ℕ) {ds : Chunks} {fs : List RdbEntry} (es : List SnapshotEntry)
    → AllSaved es
    → Loads db ds fs
    → Loads db (write_entries es ++ ds) (restored db es ++ fs)
write_entries-Loads db [] saved rest = rest
write_entries-Loads db {ds} {fs} (e ∷ es) saved rest =
    rw
      (
        restored_cons db e es,
        append_assoc (restored db (e ∷ [])) (restored db es) fs,
        append_assoc (write_key_value (new_key e.key) e.value e.expire_ms) (write_entries es) ds,
      )
      (saved-Loads db e saved.0 (write_entries-Loads db es saved.1 rest))

length-db_entries : (idx : ℕ) (es : List SnapshotEntry) → length (db_entries idx es) ≤ length es
unfolding db_entries
length-db_entries idx [] = omega arith
length-db_entries idx (e ∷ es) = ground (arith, length-db_entries idx es)

AllSaved-db_entries :
    (idx : ℕ) (es : List SnapshotEntry) → AllSaved es → AllSaved (db_entries idx es)
unfolding db_entries
AllSaved-db_entries idx [] saved = tt
AllSaved-db_entries idx (e ∷ es) saved = elim (Bool-cases (e.db == idx)) [
  | inl a ↦ rw a (saved.0, AllSaved-db_entries idx es saved.1)
  | inr a ↦ rw a (AllSaved-db_entries idx es saved.1)
]

expires-le : (x : Option ℕ) → (elim x [ none ↦ 0 | some ms ↦ 1 ]) ≤ 1
expires-le none = omega arith
expires-le (some ms) = omega arith

expire_count-le : (es : List SnapshotEntry) → expire_count es ≤ length es
expire_count-le [] = omega arith
expire_count-le (e ∷ es) = omega (arith, expire_count-le es, expires-le e.expire_ms)

select-some_bytes : (idx : ℕ) → 0 < length (concat (write_select_db idx))
unfolding write_select_db
select-some_bytes idx = omega arith

resize-some_bytes : (n m : ℕ) → 0 < length (concat (write_resize_db n m))
unfolding write_resize_db
resize-some_bytes n m = omega arith

pub aux-some_bytes : (key value : Bytes) → 0 < length (concat (write_aux key value))
unfolding write_aux
aux-some_bytes key value = omega arith

write_db-Loads :
    (idx : ℕ) {ds : Chunks} {fs : List RdbEntry} (es : List SnapshotEntry)
    → idx < 2 ^ 32
    → IsWord (length es)
    → AllSaved es
    → ((from : ℕ) → Loads from ds fs)
    → (from : ℕ) → Loads from (write_db idx es ++ ds) (restored idx es ++ fs)
write_db-Loads idx [] h n saved rest from = rest from
write_db-Loads idx {ds} {fs} (e ∷ es) h n saved rest from =
    let entries = write_entries (e ∷ es) in
    let sizes = write_resize_db (length (e ∷ es)) (expire_count (e ∷ es)) in
    rw (append_assoc (write_select_db idx) (sizes ++ entries) ds, append_assoc sizes entries ds)
      (Loads-go_on (write_select_db idx) (sizes ++ (entries ++ ds)) (restored idx (e ∷ es) ++ fs)
        (select-some_bytes idx)
        (Loads-go_on sizes (entries ++ ds) (restored idx (e ∷ es) ++ fs)
          (resize-some_bytes (length (e ∷ es)) (expire_count (e ∷ es)))
          (write_entries-Loads idx (e ∷ es) saved (rest idx))
          (write_resize_db-Reads (length (e ∷ es)) (expire_count (e ∷ es)) n
            (omega (arith, expire_count-le (e ∷ es)))))
        (write_select_db-Reads idx h))

pub write_dbs-Loads :
    (n idx : ℕ) (es : List SnapshotEntry)
    → n + idx < 2 ^ 32
    → IsWord (length es)
    → AllSaved es
    → (from : ℕ) → Loads from (write_dbs n idx es) (restored_dbs n idx es)
unfolding write_dbs
write_dbs-Loads zero idx es h w saved from = Loads-end
write_dbs-Loads (suc n) idx es h w saved from =
    write_db-Loads idx (db_entries idx es) (omega arith) (omega (arith, length-db_entries idx es))
      (AllSaved-db_entries idx es saved) (write_dbs-Loads n (suc idx) es (omega arith) w saved) from
