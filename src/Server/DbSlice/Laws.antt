-- ===== src/Server/DbSlice/Laws.antt =====
-- Every operation, by its effect on the view.
use shrikedb.Prelude.{ℕ, ◌-◌, ◌≡◌, none, some, arith, not, Option-cases, inl, inr, if◌then◌else◌}
use shrikedb.Std.Bytes.{Bytes, bytes_eq, bytes_eq_refl}
use shrikedb.Core.CompactObj.{PrimeKey, PrimeValue, new_key}
use shrikedb.Core.CompactObj.Laws.{prime_key, key_eq-new_key}
use shrikedb.Core.Contract
use shrikedb.Core.Contract.{Entries, find-insert, find-remove}
use shrikedb.Server.DbSlice.{
  DbTable, is_some, find, exists, add_or_update, add_if_absent, del, add_expire, remove_expire,
  ttl_ms, TtlResult, key_not_found, no_expiry, expires, rename, write_back,
}
use shrikedb.Server.DbSlice.View.{Visible, live, value_of, deadline_of, view, found, find_same}

-- The answer of TTL for what a client sees of the key.
abbrev pub remaining : ℕ → Visible → TtlResult
remaining now none = key_not_found
remaining now (some (v, none)) = no_expiry
remaining now (some (v, some d)) = expires (d - now)

abbrev pub stored : PrimeValue → Visible → Visible
stored v none = some (v, none)
stored v (some old) = some old

-- Reads of one key after a write under another.
module _ {V : Type 0} (k j : Bytes) (m : Entries PrimeKey V) where
  pub find-insert_bytes :
      (v : V)
      → Contract.find (new_key j) (Contract.insert (new_key k) v m)
        ≡ (if bytes_eq k j then some v else Contract.find (new_key j) m)
  find-insert_bytes v = rw (find-insert, key_eq-new_key)

  pub find-remove_bytes :
      Contract.find (new_key j) (Contract.remove (new_key k) m)
      ≡ (if bytes_eq k j then none else Contract.find (new_key j) m)
  find-remove_bytes = rw (find-remove, key_eq-new_key)

module _ (key : Bytes) (now : ℕ) (db : DbTable) where
  -- FIND returns what the view holds.
  pub find_lem : (find key now db).1 ≡ found (view now db key)
  unfolding find view Contract.contains
  find_lem = ground arith

  pub view-find : (j : Bytes) → view now (find key now db).0 j ≡ view now db j
  unfolding find view
  view-find j = ground (
    arith,
    find-remove_bytes key j db.prime,
    find-remove_bytes key j db.expire,
    find_same key j db.prime,
    find_same key j db.expire,
  )

  pub exists_lem : (exists key now db).1 ≡ is_some (view now db key)
  unfolding exists
  exists_lem = rw find_lem (ground arith)

  pub view-exists : (j : Bytes) → view now (exists key now db).0 j ≡ view now db j
  unfolding exists
  view-exists j = view-find j

  -- TTL reports what the view holds.
  pub ttl_ms_lem : (ttl_ms key now db).1 ≡ remaining now (view now db key)
  unfolding ttl_ms view Contract.contains
  ttl_ms_lem = ground arith

  pub view-ttl_ms : (j : Bytes) → view now (ttl_ms key now db).0 j ≡ view now db j
  unfolding ttl_ms view Contract.contains
  view-ttl_ms j = ground (
    arith,
    find-remove_bytes key j db.prime,
    find-remove_bytes key j db.expire,
    find_same key j db.prime,
    find_same key j db.expire,
  )

  pub view-del :
      (j : Bytes) → view now (del key now db).0 j ≡ (if bytes_eq key j then none else view now db j)
  unfolding del view
  view-del j = ground (arith, find-remove_bytes key j db.prime, find-remove_bytes key j db.expire)

  -- A write leaves the deadline that the key has in the expire table.
  pub view-add_or_update :
      (v : PrimeValue) (j : Bytes)
      → view now (add_or_update key v now db).0 j
        ≡ (if bytes_eq key j then live now (some v) (deadline_of db key) else view now db j)
  unfolding add_or_update view
  view-add_or_update v j =
      ground (arith, find-insert_bytes key j db.prime v, find_same key j db.expire)

  pub view-write_back :
      (v : PrimeValue) (j : Bytes)
      → view now (write_back key v now db).0 j
        ≡ (if bytes_eq key j then live now (some v) (deadline_of db key) else view now db j)
  unfolding write_back view
  view-write_back v j =
      ground (arith, find-insert_bytes key j db.prime v, find_same key j db.expire)

  pub view-add_expire :
      (d : ℕ) (j : Bytes)
      → view now (add_expire key d now db).0 j
        ≡ (if bytes_eq key j then live now (value_of db key) (some d) else view now db j)
  unfolding add_expire view Contract.contains
  view-add_expire d j = ground (
    arith,
    find-insert_bytes key j db.expire d,
    find_same key j db.prime,
    find_same key j db.expire,
  )

  pub view-remove_expire :
      (j : Bytes)
      → view now (remove_expire key now db).0 j
        ≡ (if bytes_eq key j then live now (value_of db key) none else view now db j)
  unfolding remove_expire view
  view-remove_expire j = ground (arith, find-remove_bytes key j db.expire, find_same key j db.prime)

  pub add_if_absent_lem :
      (v : PrimeValue) → (add_if_absent key v now db).1 ≡ not (is_some (view now db key))
  unfolding add_if_absent view Contract.contains
  add_if_absent_lem v = ground (arith, find-remove_bytes key key db.prime, bytes_eq_refl key)

  -- A key that is seen stays as it is; otherwise the value is stored with no deadline.
  pub view-add_if_absent :
      (v : PrimeValue) (j : Bytes)
      → (value_of db key ≡ none → deadline_of db key ≡ none)
      → view now (add_if_absent key v now db).0 j
        ≡ (if bytes_eq key j then stored v (view now db key) else view now db j)
  unfolding add_if_absent view Contract.contains
  view-add_if_absent v j consistent = ground (
    arith,
    find-insert_bytes key j db.prime v,
    find-insert_bytes key j (Contract.remove (new_key key) db.prime) v,
    find-remove_bytes key key db.prime,
    find-remove_bytes key j db.prime,
    find-remove_bytes key j db.expire,
    find_same key j db.prime,
    find_same key j db.expire,
  )

module _ (from to : Bytes) (now : ℕ) (db : DbTable) where
  -- The value and its deadline move from one key to the other, whatever the other held.
  pub view-rename :
      (j : Bytes)
      → view now (rename from to now db).0 j ≡ elim (value_of db from) [
        | none ↦ view now db j
        | some v ↦
            if bytes_eq to j
            then live now (some v) (deadline_of db from)
            else if bytes_eq from j
            then none
            else view now db j
      ]
  unfolding rename view
  view-rename j =
      let prime = Contract.remove (new_key from) db.prime in
      let expire = Contract.remove (new_key from) db.expire in
      elim (Option-cases (value_of db from)) [
        | inl absent ↦ rw absent (
            ground (
              arith,
              find-remove_bytes from j db.prime,
              find-remove_bytes from j db.expire,
              find_same from j db.prime,
            ))
        | inr (v, held) ↦ elim (Option-cases (deadline_of db from)) [
          | inl forever ↦
              rw (held, forever)
                (ground (
                  arith,
                  find-remove_bytes from j db.prime,
                  find-remove_bytes from j db.expire,
                  find-remove_bytes to j expire,
                  find-insert_bytes to j prime v,
                ))
          | inr (d, until) ↦
              rw (held, until)
                (ground (
                  arith,
                  find-remove_bytes from j db.prime,
                  find-remove_bytes from j db.expire,
                  find-remove_bytes to j expire,
                  find-insert_bytes to j prime v,
                  find-insert_bytes to j (Contract.remove (new_key to) expire) d,
                ))
        ]
      ]

  -- RENAME succeeds exactly if the source key is in the table, expired or not.
  pub rename_lem : (rename from to now db).1 ≡ is_some (value_of db from)
  unfolding rename
  rename_lem = ground arith
