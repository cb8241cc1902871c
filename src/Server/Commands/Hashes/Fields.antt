-- ===== src/Server/Commands/Hashes/Fields.antt =====
-- The loops of HSET and HDEL over the fields, and the map that they leave.
use shrikedb.Prelude.{
  ℕ, ◌+◌, ◌≡◌, refl, ap, ◌∙◌, Bool, true, false, Option, none, some, List, [], ◌∷◌, arith,
  if◌then◌else◌, length, Bool-cases, inl, inr,
}
use shrikedb.Std.Bytes.{Bytes, bytes_eq}
use shrikedb.Core.Key.{bytes_key}
use shrikedb.Core.Contract
use shrikedb.Core.Contract.{find-insert, find-remove, Unique, Unique-insert, Unique-remove}
use shrikedb.Server.Commands.Hashes.{HashMap, insert_fields, remove_fields}

-- The last value that the pairs give the field, or the old one.
abbrev pub overlaid : Bytes → List (Bytes × Bytes) → Option Bytes → Option Bytes
overlaid j [] old = old
overlaid j ((f, v) ∷ rest) old = overlaid j rest (if bytes_eq f j then some v else old)

length-insert :
    (f v : Bytes) (m : HashMap)
    → length (Contract.insert f v m) ≡ length m + (if Contract.contains f m then 0 else 1)
unfolding Contract.insert Contract.contains Contract.find
length-insert f v [] = omega arith
length-insert f v ((j, w) ∷ m) = ground (arith, length-insert f v m)

remove-absent : (f : Bytes) (m : HashMap) → Contract.find f m ≡ none → Contract.remove f m ≡ m
unfolding Contract.find Contract.remove
remove-absent f [] h = refl
remove-absent f ((j, w) ∷ m) h = ground (arith, remove-absent f m)

find-none :
    (f j : Bytes) (m : HashMap)
    → bytes_eq f j ≡ true
    → Contract.find j m ≡ none
    → Contract.find f m ≡ none
find-none f j m same absent = Contract.find-congr f j m same ∙ absent

length-remove :
    (f : Bytes) (m : HashMap)
    → Unique m
    → length (Contract.remove f m) + (if Contract.contains f m then 1 else 0) ≡ length m
unfolding Contract.remove Contract.contains Contract.find
length-remove f [] u = omega arith
length-remove f ((j, w) ∷ m) u = elim (Bool-cases (bytes_eq f j)) [
  | inl same ↦ rw same (let gone = remove-absent f m (find-none f j m same u.0) in ground arith)
  | inr other ↦ rw other (ground (arith, length-remove f m u.1))
]

-- What the loop of HSET makes of a map.
pub record Sets (fields : List (Bytes × Bytes)) (m : HashMap) (r : HashMap × ℕ) : Type 0 where
  pub values : (j : Bytes) → Contract.find j r.0 ≡ overlaid j fields (Contract.find j m)
  pub distinct : Unique r.0
  pub counted : length r.0 ≡ length m + r.1

bump_lem : (b : Bool) (n : ℕ) → (if b then n + 1 else n) ≡ n + (if b then 1 else 0)
bump_lem true n = refl
bump_lem false n = omega arith

skip_lem : (b : Bool) (n : ℕ) → (if b then n else n + 1) ≡ n + (if b then 0 else 1)
skip_lem true n = omega arith
skip_lem false n = refl

insert_fields-length :
    (fields : List (Bytes × Bytes)) (m : HashMap) (n : ℕ)
    → length (insert_fields fields (m, n)).0 + n ≡ length m + (insert_fields fields (m, n)).1
unfolding insert_fields
insert_fields-length [] m n = omega arith
insert_fields-length ((f, v) ∷ rest) m n =
    let old = Contract.contains f m in
    omega (
      arith,
      insert_fields-length rest (Contract.insert f v m) (if old then n else n + 1),
      length-insert f v m,
      skip_lem old n,
    )

insert_fields-find :
    (fields : List (Bytes × Bytes)) (m : HashMap) (n : ℕ) (j : Bytes)
    → Contract.find j (insert_fields fields (m, n)).0 ≡ overlaid j fields (Contract.find j m)
unfolding insert_fields
insert_fields-find [] m n j = refl
insert_fields-find ((f, v) ∷ rest) m n j =
    insert_fields-find rest (Contract.insert f v m) _ j ∙ ap (overlaid j rest) (find-insert f j v m)

insert_fields-Unique :
    (fields : List (Bytes × Bytes)) (m : HashMap) (n : ℕ)
    → Unique m
    → Unique (insert_fields fields (m, n)).0
unfolding insert_fields
insert_fields-Unique [] m n u = u
insert_fields-Unique ((f, v) ∷ rest) m n u =
    insert_fields-Unique rest (Contract.insert f v m) _ (Unique-insert f v m u)

pub insert_fields-Sets :
    (fields : List (Bytes × Bytes)) (m : HashMap)
    → Unique m
    → Sets fields m (insert_fields fields (m, 0))
insert_fields-Sets fields m u = record {
  values = insert_fields-find fields m 0;
  distinct = insert_fields-Unique fields m 0 u;
  counted = omega (arith, insert_fields-length fields m 0);
}

-- Nothing for the fields given, and the old value for the others.
abbrev pub without : Bytes → List Bytes → Option Bytes → Option Bytes
without j [] old = old
without j (f ∷ fs) old = without j fs (if bytes_eq f j then none else old)

-- What the loop of HDEL makes of a map.
pub record Drops (fs : List Bytes) (m : HashMap) (r : HashMap × ℕ) : Type 0 where
  pub values : (j : Bytes) → Contract.find j r.0 ≡ without j fs (Contract.find j m)
  pub distinct : Unique r.0
  pub counted : length r.0 + r.1 ≡ length m

remove_fields-length :
    (fs : List Bytes) (m : HashMap) (n : ℕ)
    → Unique m
    → length (remove_fields fs (m, n)).0 + (remove_fields fs (m, n)).1 ≡ length m + n
unfolding remove_fields
remove_fields-length [] m n u = omega arith
remove_fields-length (f ∷ fs) m n u =
    let there = Contract.contains f m in
    omega (
      arith,
      remove_fields-length fs (Contract.remove f m) (if there then n + 1 else n)
          (Unique-remove f m u),
      length-remove f m u,
      bump_lem there n,
    )

remove_fields-find :
    (fs : List Bytes) (m : HashMap) (n : ℕ) (j : Bytes)
    → Contract.find j (remove_fields fs (m, n)).0 ≡ without j fs (Contract.find j m)
unfolding remove_fields
remove_fields-find [] m n j = refl
remove_fields-find (f ∷ fs) m n j =
    remove_fields-find fs (Contract.remove f m) _ j ∙ ap (without j fs) (find-remove f j m)

remove_fields-Unique :
    (fs : List Bytes) (m : HashMap) (n : ℕ) → Unique m → Unique (remove_fields fs (m, n)).0
unfolding remove_fields
remove_fields-Unique [] m n u = u
remove_fields-Unique (f ∷ fs) m n u =
    remove_fields-Unique fs (Contract.remove f m) _ (Unique-remove f m u)

pub remove_fields-Drops :
    (fs : List Bytes) (m : HashMap) → Unique m → Drops fs m (remove_fields fs (m, 0))
remove_fields-Drops fs m u = record {
  values = remove_fields-find fs m 0;
  distinct = remove_fields-Unique fs m 0 u;
  counted = omega (arith, remove_fields-length fs m 0 u);
}
