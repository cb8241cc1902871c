-- ===== src/Server/Commands/Sets/Loops.antt =====
-- The loops of SADD and SREM over the members, and the set that they leave.
use shrikedb.Prelude.{
  ℕ, ◌+◌, ◌≡◌, refl, ◌∙◌, Bool, true, false, not, ◌&&◌, ◌||◌, List, [], ◌∷◌, arith, if◌then◌else◌,
  length,
}
use shrikedb.Std.Bytes.{Bytes}
use shrikedb.Std.HashSet
use shrikedb.Std.HashSet.{HashSet, contains}
use shrikedb.Std.HashSet.Laws.{
  IsDistinct, contains-insert, insert-IsDistinct, length-insert, contains-remove, remove-IsDistinct,
  length-remove,
}
use shrikedb.Core.Key.{bytes_eq_symm}
use shrikedb.Server.Commands.Sets.{insert_all, remove_all}

-- What the loop of SADD makes of a set: the members of both, each once, and the number of new ones.
pub record Adds (ms : List Bytes) (s : HashSet) (r : HashSet × ℕ) : Type 0 where
  pub members : (j : Bytes) → contains j r.0 ≡ (contains j s || contains j ms)
  pub distinct : IsDistinct r.0
  pub counted : length r.0 ≡ length s + r.1

bump_lem : (b : Bool) (n : ℕ) → (if b then n + 1 else n) ≡ n + (if b then 1 else 0)
bump_lem true n = refl
bump_lem false n = omega arith

insert_all-length :
    (ms : List Bytes) (s : HashSet) (n : ℕ)
    → length (insert_all ms (s, n)).0 + n ≡ length s + (insert_all ms (s, n)).1
unfolding insert_all
insert_all-length [] s n = omega arith
insert_all-length (m ∷ ms) s n =
    let (s', new) = HashSet.insert m s in
    omega
      (arith, insert_all-length ms s' (if new then n + 1 else n), length-insert m s, bump_lem new n)

insert_all-contains :
    (ms : List Bytes) (s : HashSet) (n : ℕ) (j : Bytes)
    → contains j (insert_all ms (s, n)).0 ≡ (contains j s || contains j ms)
unfolding insert_all contains
insert_all-contains [] s n j = ground arith
insert_all-contains (m ∷ ms) s n j =
    insert_all-contains ms (HashSet.insert m s).0 _ j
    ∙ ground (arith, contains-insert m s j, bytes_eq_symm m j)

insert_all-IsDistinct :
    (ms : List Bytes) (s : HashSet) (n : ℕ) → IsDistinct s → IsDistinct (insert_all ms (s, n)).0
unfolding insert_all
insert_all-IsDistinct [] s n d = d
insert_all-IsDistinct (m ∷ ms) s n d =
    insert_all-IsDistinct ms (HashSet.insert m s).0 _ (insert-IsDistinct m s d)

pub insert_all-Adds :
    (ms : List Bytes) (s : HashSet) → IsDistinct s → Adds ms s (insert_all ms (s, 0))
insert_all-Adds ms s d = record {
  members = insert_all-contains ms s 0;
  distinct = insert_all-IsDistinct ms s 0 d;
  counted = omega (arith, insert_all-length ms s 0);
}

-- What the loop of SREM makes of a set.
pub record Removes (ms : List Bytes) (s : HashSet) (r : HashSet × ℕ) : Type 0 where
  pub left : (j : Bytes) → contains j r.0 ≡ (contains j s && not (contains j ms))
  pub distinct : IsDistinct r.0
  pub counted : length r.0 + r.1 ≡ length s

remove_all-length :
    (ms : List Bytes) (s : HashSet) (n : ℕ)
    → length (remove_all ms (s, n)).0 + (remove_all ms (s, n)).1 ≡ length s + n
unfolding remove_all
remove_all-length [] s n = omega arith
remove_all-length (m ∷ ms) s n =
    let (s', found) = HashSet.remove m s in
    omega (
      arith,
      remove_all-length ms s' (if found then n + 1 else n),
      length-remove m s,
      bump_lem found n,
    )

remove_all-contains :
    (ms : List Bytes) (s : HashSet) (n : ℕ) (j : Bytes)
    → IsDistinct s
    → contains j (remove_all ms (s, n)).0 ≡ (contains j s && not (contains j ms))
unfolding remove_all contains
remove_all-contains [] s n j d = ground arith
remove_all-contains (m ∷ ms) s n j d =
    remove_all-contains ms (HashSet.remove m s).0 _ j (remove-IsDistinct m s d)
    ∙ ground (arith, contains-remove m s d j, bytes_eq_symm m j)

remove_all-IsDistinct :
    (ms : List Bytes) (s : HashSet) (n : ℕ) → IsDistinct s → IsDistinct (remove_all ms (s, n)).0
unfolding remove_all
remove_all-IsDistinct [] s n d = d
remove_all-IsDistinct (m ∷ ms) s n d =
    remove_all-IsDistinct ms (HashSet.remove m s).0 _ (remove-IsDistinct m s d)

pub remove_all-Removes :
    (ms : List Bytes) (s : HashSet) → IsDistinct s → Removes ms s (remove_all ms (s, 0))
remove_all-Removes ms s d = record {
  left = λ j. remove_all-contains ms s 0 j d;
  distinct = remove_all-IsDistinct ms s 0 d;
  counted = omega (arith, remove_all-length ms s 0);
}
