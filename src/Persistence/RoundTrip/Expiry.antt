-- ===== src/Persistence/RoundTrip/Expiry.antt =====
-- The deadline of a value that `write_key_value` does not write.
use mathlib.Core.List.{append-nil, append_assoc}
use shrikedb.Prelude.{ℕ, ◌≡◌, sym, false, Option, none, List, ◌∷◌, ◌++◌}
use shrikedb.Core.CompactObj.{
  PrimeKey, PrimeValue, new_key, string, integer, list, set, hash, zset, is_string,
}
use shrikedb.Persistence.Save.{
  Chunks, SnapshotEntry, write_entries, write_key_value, write_expiry, write_typed,
}

unwritten :
    (key : PrimeKey) (value : PrimeValue) (expire : Option ℕ)
    → is_string value ≡ false
    → write_key_value key value expire ≡ write_expiry expire
unfolding write_key_value is_string
unwritten key (string d) expire h = cc
unwritten key (integer n) expire h = cc
unwritten key (list xs) expire h = append-nil (write_expiry expire)
unwritten key (set xs) expire h = append-nil (write_expiry expire)
unwritten key (hash xs) expire h = append-nil (write_expiry expire)
unwritten key (zset xs ys) expire h = append-nil (write_expiry expire)

joined :
    (key : PrimeKey) (value : PrimeValue) (expire : Option ℕ) (rest : Chunks)
    → write_expiry expire ++ (write_key_value key value none ++ rest)
      ≡ write_key_value key value expire ++ rest
unfolding write_key_value
joined key value expire rest = sym (append_assoc (write_expiry expire) (write_typed key value) rest)

-- A list, a set, a hash or a sorted set with a deadline, and after it an entry without one, are
-- written as the bytes of the second entry with the deadline of the first: the first is lost, and the
-- second expires.
pub write_entries-misplaced :
    (e e' : SnapshotEntry) (es : List SnapshotEntry)
    → is_string e.value ≡ false
    → e'.expire_ms ≡ none
    → write_entries (e ∷ e' ∷ es) ≡ write_entries (record e' { expire_ms = e.expire_ms } ∷ es)
write_entries-misplaced e e' es h none_left =
    rw (unwritten (new_key e.key) e.value e.expire_ms h, none_left)
      (joined (new_key e'.key) e'.value e.expire_ms (write_entries es))
