-- ===== src/Server/DbSlice/Sweep.antt =====
-- The active expiry of `expire_sweep` removes only keys that clients no longer see.
use shrikedb.Prelude.{
  ℕ, zero, suc, ◌≤◌, ◌≡◌, ◌∙◌, refl, Bool, true, false, ◌||◌, if◌then◌else◌, Option, none, some,
  List, [], ◌∷◌, arith, leb, take, length, Bool-cases, inl, inr,
}
use shrikedb.Std.Bytes.{Bytes}
use shrikedb.Core.CompactObj.{PrimeKey, PrimeValue, new_key}
use shrikedb.Core.CompactObj.Laws.{prime_key}
use shrikedb.Core.Contract
use shrikedb.Core.Contract.{Entries, find-remove}
use shrikedb.Server.DbSlice.{DbTable, expire_sweep, expired_keys, remove_keys}
use shrikedb.Server.DbSlice.View.{live, view}
use shrikedb.Server.DbSlice.Consistent.{IsConsistent, remove_both}

abbrev pub All : {A : Type 0} → (A → Type 0) → List A → Type 0
All P [] = Unit
All P (x ∷ xs) = P x × All P xs

-- Each listed entry is the one that a lookup of its key finds.
abbrev Reads : Entries PrimeKey ℕ → Entries PrimeKey ℕ → Type 0
Reads full = All (λ e. Contract.find e.0 full ≡ some e.1)

find-cons_ne :
    (k j : PrimeKey) (w d : ℕ) (m : Entries PrimeKey ℕ)
    → Contract.find j m ≡ none
    → Contract.find k m ≡ some d
    → Contract.find k ((j, w) ∷ m) ≡ some d
unfolding Contract.find
find-cons_ne k j w d m fresh h = ground (arith, Contract.find-congr k j m)

Reads-cons :
    (j : PrimeKey) (w : ℕ) (part m : Entries PrimeKey ℕ)
    → Contract.find j m ≡ none
    → Reads m part
    → Reads ((j, w) ∷ m) part
Reads-cons j w [] m fresh r = tt
Reads-cons j w ((k, d) ∷ part) m fresh r =
    (find-cons_ne k j w d m fresh r.0, Reads-cons j w part m fresh r.1)

find-cons_self :
    (k : PrimeKey) (d : ℕ) (m : Entries PrimeKey ℕ) → Contract.find k ((k, d) ∷ m) ≡ some d
unfolding Contract.find
find-cons_self k d m = rw (prime_key.equal_refl k)

Reads-take : (n : ℕ) (m : Entries PrimeKey ℕ) → Contract.Unique m → Reads m (take n m)
Reads-take zero m u = tt
Reads-take (suc n) [] u = tt
Reads-take (suc n) ((k, d) ∷ m) u =
    (find-cons_self k d m, Reads-cons k d (take n m) m u.0 (Reads-take n m u.1))

-- A client does not see the key.
abbrev pub IsDead : ℕ → DbTable → PrimeKey → Type 0
IsDead now db k = live now (Contract.find k db.prime) (Contract.find k db.expire) ≡ none

pub live-expired :
    (now d : ℕ) (v : Option PrimeValue) → leb d now ≡ true → live now v (some d) ≡ none
live-expired now d none h = refl
live-expired now d (some v) h = rw h

expired_keys-IsDead :
    (now : ℕ) (db : DbTable) (part : Entries PrimeKey ℕ)
    → Reads db.expire part
    → All (IsDead now db) (expired_keys now part)
unfolding expired_keys
expired_keys-IsDead now db [] r = tt
expired_keys-IsDead now db ((k, d) ∷ part) r = elim (Bool-cases (leb d now)) [
  | inl come ↦ rw come (
    rw r.0 (live-expired now d (Contract.find k db.prime) come),
    expired_keys-IsDead now db part r.1,
  )
  | inr later ↦ rw later (expired_keys-IsDead now db part r.1)
]

abbrev pub removed : PrimeKey → DbTable → DbTable
removed k db = record { prime = Contract.remove k db.prime; expire = Contract.remove k db.expire }

removed-IsDead :
    (now : ℕ) (k j : PrimeKey) (db : DbTable) → IsDead now db j → IsDead now (removed k db) j
removed-IsDead now k j db h = ground (arith, find-remove k j db.prime, find-remove k j db.expire)

removed-All :
    (now : ℕ) (k : PrimeKey) (db : DbTable) (ks : List PrimeKey)
    → All (IsDead now db) ks
    → All (IsDead now (removed k db)) ks
removed-All now k db [] h = tt
removed-All now k db (j ∷ ks) h = (removed-IsDead now k j db h.0, removed-All now k db ks h.1)

view-removed :
    (now : ℕ) (k : PrimeKey) (db : DbTable) (j : Bytes)
    → IsDead now db k
    → view now (removed k db) j ≡ view now db j
unfolding view
view-removed now k db j h = ground (
  arith,
  find-remove k (new_key j) db.prime,
  find-remove k (new_key j) db.expire,
  Contract.find-congr k (new_key j) db.prime,
  Contract.find-congr k (new_key j) db.expire,
)

pub view-remove_keys :
    (now : ℕ) (ks : List PrimeKey) (db : DbTable) (j : Bytes)
    → All (IsDead now db) ks
    → view now (remove_keys ks db) j ≡ view now db j
unfolding remove_keys
view-remove_keys now [] db j h = refl
view-remove_keys now (k ∷ ks) db j h =
    view-remove_keys now ks (removed k db) j (removed-All now k db ks h.1)
    ∙ view-removed now k db j h.0

pub remove_keys-IsConsistent :
    (ks : List PrimeKey) (db : DbTable) → IsConsistent db → IsConsistent (remove_keys ks db)
unfolding remove_keys
remove_keys-IsConsistent [] db c = c
remove_keys-IsConsistent (k ∷ ks) db c =
    remove_keys-IsConsistent ks (removed k db) (remove_both k c)

length-expired_keys-le :
    (now n : ℕ) (m : Entries PrimeKey ℕ) → length (expired_keys now (take n m)) ≤ n
unfolding expired_keys
length-expired_keys-le now zero m = omega arith
length-expired_keys-le now (suc n) [] = omega arith
length-expired_keys-le now (suc n) ((k, d) ∷ m) = ground (arith, length-expired_keys-le now n m)

abbrev among : PrimeKey → List PrimeKey → Bool
among k [] = false
among k (j ∷ ks) = prime_key.equal j k || among k ks

-- Each key once.
abbrev Once : List PrimeKey → Type 0
Once [] = Unit
Once (k ∷ ks) = (among k ks ≡ false) × Once ks

find-remove_keys :
    (ks : List PrimeKey) (db : DbTable) (k : PrimeKey)
    → (Contract.find k (remove_keys ks db).prime
        ≡ (if among k ks then none else Contract.find k db.prime))
      × (Contract.find k (remove_keys ks db).expire
          ≡ (if among k ks then none else Contract.find k db.expire))
unfolding remove_keys
find-remove_keys [] db k = (refl, refl)
find-remove_keys (j ∷ ks) db k =
    let (prime, expire) = find-remove_keys ks (removed j db) k in
    (
      prime ∙ ground (arith, find-remove j k db.prime),
      expire ∙ ground (arith, find-remove j k db.expire),
    )

among-fresh :
    (now n : ℕ) (k : PrimeKey) (m : Entries PrimeKey ℕ)
    → Contract.find k m ≡ none
    → among k (expired_keys now (take n m)) ≡ false
unfolding expired_keys Contract.find
among-fresh now zero k m h = refl
among-fresh now (suc n) k [] h = refl
among-fresh now (suc n) k ((j, d) ∷ m) h =
    ground (arith, among-fresh now n k m, prime_key.equal_symm j k)

expired_keys-Once :
    (now n : ℕ) (m : Entries PrimeKey ℕ) → Contract.Unique m → Once (expired_keys now (take n m))
unfolding expired_keys
expired_keys-Once now zero m u = tt
expired_keys-Once now (suc n) [] u = tt
expired_keys-Once now (suc n) ((k, d) ∷ m) u = elim (Bool-cases (leb d now)) [
  | inl come ↦ rw come (among-fresh now n k m u.0, expired_keys-Once now n m u.1)
  | inr later ↦ rw later (expired_keys-Once now n m u.1)
]

-- The deadline of the key has come.
abbrev IsDue : ℕ → DbTable → PrimeKey → Type 0
IsDue now db k = (d : ℕ) × (Contract.find k db.expire ≡ some d) × (leb d now ≡ true)

expired_keys-IsDue :
    (now : ℕ) (db : DbTable) (part : Entries PrimeKey ℕ)
    → Reads db.expire part
    → All (IsDue now db) (expired_keys now part)
unfolding expired_keys
expired_keys-IsDue now db [] r = tt
expired_keys-IsDue now db ((k, d) ∷ part) r = elim (Bool-cases (leb d now)) [
  | inl come ↦ rw come ((d, r.0, come), expired_keys-IsDue now db part r.1)
  | inr later ↦ rw later (expired_keys-IsDue now db part r.1)
]

-- What a sweep does to the tables: it removes the keys of a list, each there once, whose deadlines
-- have come, and no other, and reports how many they are.
pub record Sweeps (count now : ℕ) (db : DbTable) (r : DbTable × ℕ) : Type 0 where
  pub gone : List PrimeKey
  pub once : Once gone
  pub due : All (IsDue now db) gone
  pub reported : r.1 ≡ length gone
  pub few : length gone ≤ count
  pub tables :
      (k : PrimeKey)
      → (Contract.find k r.0.prime ≡ (if among k gone then none else Contract.find k db.prime))
        × (Contract.find k r.0.expire ≡ (if among k gone then none else Contract.find k db.expire))

module _ (count now : ℕ) (db : DbTable) (c : IsConsistent db) where
  -- A sweep changes nothing that a client can see and keeps the invariant. It removes at most `count`
  -- keys from the two tables, whose deadlines have come, leaves all others as they are, and reports
  -- the number of the removed ones.
  pub expire_sweep_lem :
      ((j : Bytes) → view now (expire_sweep count now db).0 j ≡ view now db j)
      × IsConsistent (expire_sweep count now db).0
      × Sweeps count now db (expire_sweep count now db)
  unfolding expire_sweep
  expire_sweep_lem =
      let part = take count db.expire in
      let ks = expired_keys now part in
      let reads = Reads-take count db.expire c.distinct in
      (
        λ j. view-remove_keys now ks db j (expired_keys-IsDead now db part reads),
        remove_keys-IsConsistent ks db c,
        record {
          gone = ks;
          once = expired_keys-Once now count db.expire c.distinct;
          due = expired_keys-IsDue now db part reads;
          reported = refl;
          few = length-expired_keys-le now count db.expire;
          tables = find-remove_keys ks db;
        },
      )
