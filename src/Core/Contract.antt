-- ===== src/Core/Contract.antt =====
-- What the server relies on in `DashTable`: a finite map with an order of iteration. The order is
-- that of `entries`, and no theorem depends on it. The table itself is modelled in `Core.Dash`.
pub mod Cursor
use shrikedb.Prelude.{
  ℕ, ◌+◌, ◌-◌, ◌%◌, min, leb, ltb, take, drop, ◌≤◌, ◌≡◌, refl, Bool, true, false, Option, none,
  some, List, [], ◌∷◌, arith, length, if◌then◌else◌, Bool-cases, inl, inr,
}
use shrikedb.Std.Integer.{u64_modulus}
use shrikedb.Core.Key.{Key}

abbrev pub Entries : Type 0 → Type 0 → Type 0
Entries K V = List (K × V)

-- `scan`: the entries from the cursor on, at most `count`, and the next cursor, which is 0 at the
-- end. `start + count` wraps, and a slice whose end is before its start panics.
unfoldable pub scan : {K V : Type 0} → ℕ → ℕ → Entries K V → Option (Entries K V × ℕ)
scan start count m =
    let total = length m in
    let end = min ((start + count) % u64_modulus) total in
    if leb total start
    then some ([], 0)
    else if ltb end start
    then none
    else some (take (end - start) (drop start m), if leb total end then 0 else end)

module _ {K V : Type 0} ⦃key : Key K⦄ where
  unfoldable pub find : K → Entries K V → Option V
  find k [] = none
  find k ((j, v) ∷ m) = if key.equal k j then some v else find k m

  -- The value is replaced in place, and the old key stays.
  unfoldable pub insert : K → V → Entries K V → Entries K V
  insert k v [] = (k, v) ∷ []
  insert k v ((j, w) ∷ m) = if key.equal k j then (j, v) ∷ m else (j, w) ∷ insert k v m

  unfoldable pub remove : K → Entries K V → Entries K V
  remove k [] = []
  remove k ((j, v) ∷ m) = let rest = remove k m in if key.equal k j then rest else (j, v) ∷ rest

  unfoldable pub contains : K → Entries K V → Bool
  contains k m = elim (find k m) [ none ↦ false | some _ ↦ true ]

  pub find-insert :
      (k j : K) (v : V) (m : Entries K V)
      → find j (insert k v m) ≡ (if key.equal k j then some v else find j m)
  unfolding find insert
  find-insert k j v [] = ground (arith, key.equal_symm k j)
  find-insert k j v ((i, w) ∷ m) = ground (
    arith,
    find-insert k j v m,
    key.equal_symm k j,
    key.equal_congr k i j,
    key.equal_symm i j,
    key.equal_congr k j i,
  )

  pub find-remove :
      (k j : K) (m : Entries K V) → find j (remove k m) ≡ (if key.equal k j then none else find j m)
  unfolding find remove
  find-remove k j [] = ground arith
  find-remove k j ((i, w) ∷ m) = ground (
    arith,
    find-remove k j m,
    key.equal_symm k j,
    key.equal_congr k i j,
    key.equal_symm i j,
    key.equal_congr k j i,
  )

  pub find-congr : (k j : K) (m : Entries K V) → key.equal k j ≡ true → find k m ≡ find j m
  unfolding find
  find-congr k j [] h = refl
  find-congr k j ((i, w) ∷ m) h = ground (arith, find-congr k j m h, key.equal_congr k j i)

  pub length-remove-le : (k : K) (m : Entries K V) → length (remove k m) ≤ length m
  unfolding remove
  length-remove-le k [] = omega arith
  length-remove-le k ((i, w) ∷ m) = ground (arith, length-remove-le k m)

  -- The keys are pairwise different.
  abbrev pub Unique : Entries K V → Type 0
  Unique [] = Unit
  Unique ((k, v) ∷ m) = (find k m ≡ none) × Unique m

  pub Unique-insert : (k : K) (v : V) (m : Entries K V) → Unique m → Unique (insert k v m)
  unfolding insert
  Unique-insert k v [] u = (unfold find in refl, tt)
  Unique-insert k v ((j, w) ∷ m) u = elim (Bool-cases (key.equal k j)) [
    | inl same ↦ rw same u
    | inr other ↦ rw other (rw (find-insert k j v m, other) u.0, Unique-insert k v m u.1)
  ]

  pub Unique-remove : (k : K) (m : Entries K V) → Unique m → Unique (remove k m)
  unfolding remove
  Unique-remove k [] u = u
  Unique-remove k ((j, w) ∷ m) u = elim (Bool-cases (key.equal k j)) [
    | inl same ↦ rw same (Unique-remove k m u.1)
    | inr other ↦ rw other (rw (find-remove k j m, other) u.0, Unique-remove k m u.1)
  ]
