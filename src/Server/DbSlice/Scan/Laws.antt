-- ===== src/Server/DbSlice/Scan/Laws.antt =====
-- KEYS removes only keys that clients no longer see.
use shrikedb.Prelude.{ℕ, ◌≡◌, true, [], ◌∷◌, arith, Bool-cases, Option-cases, inl, inr}
use shrikedb.Std.Bytes.{Bytes}
use shrikedb.Core.CompactObj.{PrimeKey, PrimeValue, key_bytes}
use shrikedb.Core.CompactObj.Laws.{prime_key}
use shrikedb.Core.Contract
use shrikedb.Core.Contract.{Entries}
use shrikedb.Server.DbSlice.{DbTable}
use shrikedb.Server.DbSlice.View.{view}
use shrikedb.Server.DbSlice.Consistent.{IsConsistent}
use shrikedb.Server.DbSlice.Sweep.{
  All, IsDead, live-expired, view-remove_keys, remove_keys-IsConsistent,
}
use shrikedb.Server.DbSlice.Scan.{is_expired, split_keys, keys}
use shrikedb.Server.Glob.{glob_match}

is_expired-IsDead :
    (now : ℕ) (db : DbTable) (k : PrimeKey) → is_expired now db.expire k ≡ true → IsDead now db k
unfolding is_expired
is_expired-IsDead now db k h = elim (Option-cases (Contract.find k db.expire)) [
  | inl forever ↦ ground arith
  | inr (d, until) ↦ ground (arith, live-expired now d (Contract.find k db.prime))
]

split_keys-IsDead :
    (pattern : Bytes) (now : ℕ) (db : DbTable) (m : Entries PrimeKey PrimeValue)
    → All (IsDead now db) (split_keys pattern now db.expire m).0
unfolding split_keys
split_keys-IsDead pattern now db [] = tt
split_keys-IsDead pattern now db ((k, v) ∷ m) =
    let rest = split_keys-IsDead pattern now db m in
    elim (Bool-cases (is_expired now db.expire k)) [
      | inl come ↦ rw come (is_expired-IsDead now db k come, rest)
      | inr later ↦ elim (Bool-cases (glob_match pattern (key_bytes k))) [
        | inl fits ↦ rw (later, fits) rest
        | inr differs ↦ rw (later, differs) rest
      ]
    ]

-- KEYS changes nothing that a client can see, and keeps the invariant.
pub keys_lem :
    (pattern : Bytes) (now : ℕ) (db : DbTable)
    → IsConsistent db
    → ((j : Bytes) → view now (keys pattern now db).0 j ≡ view now db j)
      × IsConsistent (keys pattern now db).0
unfolding keys
keys_lem pattern now db c =
    let gone = (split_keys pattern now db.expire db.prime).0 in
    (
      λ j. view-remove_keys now gone db j (split_keys-IsDead pattern now db db.prime),
      remove_keys-IsConsistent gone db c,
    )
