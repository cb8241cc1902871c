-- ===== src/Server/DbSlice/Consistent.antt =====
-- The invariant of a database: a key has a deadline only if it has a value, and the keys of the
-- expire table are pairwise different.
use shrikedb.Prelude.{
  ℕ, ◌≡◌, ◌≢◌, Bool, true, false, Option, none, arith, leb, Bool-cases, inl, inr, Option-cases,
}
use shrikedb.Std.Bytes.{Bytes}
use shrikedb.Core.CompactObj.{PrimeKey, PrimeValue, new_key}
use shrikedb.Core.CompactObj.Laws.{prime_key, key_eq_refl}
use shrikedb.Core.Contract
use shrikedb.Core.Contract.{Entries, find-insert, find-remove}
use shrikedb.Server.DbSlice.{
  DbTable, find, exists, add_or_update, add_if_absent, del, add_expire, write_back, remove_expire,
  ttl_ms, rename, check_and_expire,
}
use shrikedb.Server.DbSlice.View.{view}

-- Both tables under a key of the table's own type.
abbrev value_at : DbTable → PrimeKey → Option PrimeValue
value_at db k = Contract.find k db.prime

abbrev deadline_at : DbTable → PrimeKey → Option ℕ
deadline_at db k = Contract.find k db.expire

pub record IsConsistent (db : DbTable) : Type 0 where
  pub held : (k : PrimeKey) → Contract.find k db.prime ≡ none → Contract.find k db.expire ≡ none
  pub distinct : Contract.Unique db.expire

module _ (k : PrimeKey) {db : DbTable} (c : IsConsistent db) where
  pub remove_both :
      IsConsistent
        (record { prime = Contract.remove k db.prime; expire = Contract.remove k db.expire })
  remove_both = record {
    held = λ j. ground (arith, find-remove k j db.prime, find-remove k j db.expire, c.held j);
    distinct = Contract.Unique-remove k db.expire c.distinct;
  }

  put_value : (v : PrimeValue) → IsConsistent (record db { prime = Contract.insert k v db.prime })
  put_value v = record {
    held = λ j. ground (arith, find-insert k j v db.prime, c.held j);
    distinct = c.distinct;
  }

  put_deadline :
      (d : ℕ)
      → Contract.find k db.prime ≢ none
      → IsConsistent (record db { expire = Contract.insert k d db.expire })
  put_deadline d present = record {
    held = λ j.
        ground (arith, find-insert k j d db.expire, c.held j, Contract.find-congr k j db.prime);
    distinct = Contract.Unique-insert k d db.expire c.distinct;
  }

  drop_deadline : IsConsistent (record db { expire = Contract.remove k db.expire })
  drop_deadline = record {
    held = λ j. ground (arith, find-remove k j db.expire, c.held j);
    distinct = Contract.Unique-remove k db.expire c.distinct;
  }

module _ (key : Bytes) (now : ℕ) {db : DbTable} (c : IsConsistent db) where
  pub check_and_expire-IsConsistent : IsConsistent (check_and_expire (new_key key) now db).0
  unfolding check_and_expire
  check_and_expire-IsConsistent = elim (Option-cases (Contract.find (new_key key) db.expire)) [
    | inl e ↦ rw (e, check_and_expire) c
    | inr (d, e) ↦ elim (Bool-cases (leb d now)) [
      | inl come ↦ rw (e, come, check_and_expire) (remove_both (new_key key) c)
      | inr later ↦ rw (e, later, check_and_expire) c
    ]
  ]

  table-find : (find key now db).0 ≡ (check_and_expire (new_key key) now db).0
  unfolding find
  table-find = ground arith

  pub find-IsConsistent : IsConsistent (find key now db).0
  find-IsConsistent = rw table-find check_and_expire-IsConsistent

  pub exists-IsConsistent : IsConsistent (exists key now db).0
  unfolding exists
  exists-IsConsistent = find-IsConsistent

  pub add_or_update-IsConsistent : (v : PrimeValue) → IsConsistent (add_or_update key v now db).0
  unfolding add_or_update
  add_or_update-IsConsistent = put_value (new_key key) c

  pub write_back-IsConsistent : (v : PrimeValue) → IsConsistent (write_back key v now db).0
  unfolding write_back
  write_back-IsConsistent = put_value (new_key key) c

  -- The table after `add_if_absent` is the checked one, with the value if it was added.
  added : PrimeValue → Bool → DbTable
  added v true = record (check_and_expire (new_key key) now db).0 {
    prime = Contract.insert (new_key key) v (check_and_expire (new_key key) now db).0.prime;
  }
  added v false = (check_and_expire (new_key key) now db).0

  added-IsConsistent : (v : PrimeValue) (b : Bool) → IsConsistent (added v b)
  unfolding added
  added-IsConsistent v true = put_value (new_key key) check_and_expire-IsConsistent v
  added-IsConsistent v false = check_and_expire-IsConsistent

  table-add_if_absent :
      (v : PrimeValue) → (add_if_absent key v now db).0 ≡ added v (add_if_absent key v now db).1
  unfolding add_if_absent added
  table-add_if_absent v = ground arith

  pub add_if_absent-IsConsistent : (v : PrimeValue) → IsConsistent (add_if_absent key v now db).0
  add_if_absent-IsConsistent v = rw table-add_if_absent (added-IsConsistent v _)

  pub del-IsConsistent : IsConsistent (del key now db).0
  unfolding del
  del-IsConsistent = remove_both (new_key key) c

  pub add_expire-IsConsistent : (d : ℕ) → IsConsistent (add_expire key d now db).0
  unfolding add_expire Contract.contains
  add_expire-IsConsistent d = elim (Option-cases (Contract.find (new_key key) db.prime)) [
    | inl e ↦ rw (e, add_expire, Contract.contains) c
    | inr (v, e) ↦
        rw (e, add_expire, Contract.contains) (put_deadline (new_key key) c d (λ absent. cc))
  ]

  pub remove_expire-IsConsistent : IsConsistent (remove_expire key now db).0
  unfolding remove_expire
  remove_expire-IsConsistent = drop_deadline (new_key key) c

  pub ttl_ms-IsConsistent : IsConsistent (ttl_ms key now db).0
  unfolding ttl_ms Contract.contains
  ttl_ms-IsConsistent = elim (Option-cases (Contract.find (new_key key) db.prime)) [
    | inl e ↦ rw (e, ttl_ms, Contract.contains) c
    | inr (v, e) ↦ elim (Option-cases (Contract.find (new_key key) db.expire)) [
      | inl forever ↦ rw (e, forever, ttl_ms, Contract.contains) c
      | inr (d, until) ↦ elim (Bool-cases (leb d now)) [
        | inl come ↦ rw (e, until, come, ttl_ms, Contract.contains) (remove_both (new_key key) c)
        | inr later ↦ rw (e, until, later, ttl_ms, Contract.contains) c
      ]
    ]
  ]

module _ (from to : Bytes) (now : ℕ) {db : DbTable} (c : IsConsistent db) where
  pub rename-IsConsistent : IsConsistent (rename from to now db).0
  unfolding rename
  rename-IsConsistent =
      let cleared = remove_both (new_key from) c in
      elim (Option-cases (Contract.find (new_key from) db.prime)) [
        | inl e ↦ rw (e, rename) cleared
        | inr (v, e) ↦ elim (Option-cases (Contract.find (new_key from) db.expire)) [
          | inl forever ↦
              rw (e, forever, rename)
                (put_value (new_key to) (drop_deadline (new_key to) cleared) v)
          | inr (d, until) ↦
              rw (e, until, rename)
                (put_deadline (new_key to)
                  (put_value (new_key to) (drop_deadline (new_key to) cleared) v) d
                  (λ absent. ground (
                    arith,
                    find-insert (new_key to) (new_key to) v
                        (Contract.remove (new_key from) db.prime),
                    key_eq_refl (new_key to),
                  )))
        ]
      ]

module _ (key : Bytes) (now : ℕ) (db : DbTable) (c : IsConsistent db) where
  -- After a lookup that does not find the key, no deadline is left for it.
  pub deadline_of-exists :
      view now db key ≡ none → Contract.find (new_key key) (exists key now db).0.expire ≡ none
  unfolding exists find check_and_expire view
  deadline_of-exists h = ground (
    arith,
    c.held (new_key key),
    find-remove (new_key key) (new_key key) db.expire,
    key_eq_refl (new_key key),
  )
