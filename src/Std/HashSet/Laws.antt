-- ===== src/Std/HashSet/Laws.antt =====
-- The members of a set after each operation, and that each is there once.
use shrikedb.Prelude.{
  ◌+◌, ◌≡◌, refl, ap, ◌∙◌, Bool, true, false, not, ◌&&◌, ◌||◌, [], ◌∷◌, ◌++◌, arith, length,
  if◌then◌else◌, Bool-cases, inl, inr,
}
use shrikedb.Std.Bytes.{Bytes, bytes_eq, bytes_eq_refl}
use shrikedb.Core.Key.{bytes_eq_symm, bytes_eq_congr}
use shrikedb.Std.HashSet.{HashSet, contains, insert, remove, keep, intersection, difference, union}

-- Each member once.
abbrev pub IsDistinct : HashSet → Type 0
IsDistinct [] = Unit
IsDistinct (m ∷ s) = (contains m s ≡ false) × IsDistinct s

pub contains-congr : (k m : Bytes) (s : HashSet) → bytes_eq k m ≡ true → contains k s ≡ contains m s
unfolding contains
contains-congr k m [] h = refl
contains-congr k m (j ∷ s) h = ground (arith, contains-congr k m s h, bytes_eq_congr k m j)

module _ (m : Bytes) (s : HashSet) where
  pub contains-insert : (j : Bytes) → contains j (insert m s).0 ≡ (bytes_eq m j || contains j s)
  unfolding contains insert
  contains-insert j = ground (arith, bytes_eq_symm m j, contains-congr m j s)

  pub insert-IsDistinct : IsDistinct s → IsDistinct (insert m s).0
  unfolding insert
  insert-IsDistinct d = elim (Bool-cases (contains m s)) [
    | inl old ↦ rw old d
    | inr new ↦ rw new (new, d)
  ]

  -- A new member counts.
  pub length-insert : length (insert m s).0 ≡ length s + (if (insert m s).1 then 1 else 0)
  unfolding insert
  length-insert = ground arith

pub contains-remove :
    (m : Bytes) (s : HashSet)
    → IsDistinct s
    → (j : Bytes) → contains j (remove m s).0 ≡ (if bytes_eq m j then false else contains j s)
unfolding contains remove
contains-remove m [] d j = ground arith
contains-remove m (i ∷ s) d j = ground (
  arith,
  contains-remove m s d.1 j,
  bytes_eq_symm m j,
  bytes_eq_congr m i j,
  bytes_eq_symm i j,
  bytes_eq_congr m j i,
  contains-congr i j s,
)

remove-fresh :
    (m j : Bytes) (s : HashSet) → contains j s ≡ false → contains j (remove m s).0 ≡ false
unfolding contains remove
remove-fresh m j [] h = refl
remove-fresh m j (i ∷ s) h = ground (arith, remove-fresh m j s)

pub remove-IsDistinct : (m : Bytes) (s : HashSet) → IsDistinct s → IsDistinct (remove m s).0
unfolding remove
remove-IsDistinct m [] d = tt
remove-IsDistinct m (i ∷ s) d = elim (Bool-cases (bytes_eq m i)) [
  | inl same ↦ rw same d.1
  | inr other ↦ rw other (remove-fresh m i s d.0, remove-IsDistinct m s d.1)
]

pub length-remove :
    (m : Bytes) (s : HashSet) → length (remove m s).0 + (if (remove m s).1 then 1 else 0) ≡ length s
unfolding remove
length-remove m [] = omega arith
length-remove m (i ∷ s) = ground (arith, length-remove m s)

-- `p` does not tell equal byte strings apart.
abbrev pub Respects : (Bytes → Bool) → Type 0
Respects p = (a b : Bytes) → bytes_eq a b ≡ true → p a ≡ p b

contains-keep :
    (p : Bytes → Bool) (r : Respects p) (s : HashSet) (j : Bytes)
    → contains j (keep p s) ≡ (contains j s && p j)
unfolding contains keep
contains-keep p r [] j = refl
contains-keep p r (i ∷ s) j = ground (arith, contains-keep p r s j, r j i)

keep-IsDistinct :
    (p : Bytes → Bool) (r : Respects p) (s : HashSet) → IsDistinct s → IsDistinct (keep p s)
unfolding keep
keep-IsDistinct p r [] d = tt
keep-IsDistinct p r (i ∷ s) d = elim (Bool-cases (p i)) [
  | inl held ↦ rw held (rw (contains-keep p r s i, d.0) refl, keep-IsDistinct p r s d.1)
  | inr out ↦ rw out (keep-IsDistinct p r s d.1)
]

contains-append : (a b : HashSet) (j : Bytes) → contains j (a ++ b) ≡ (contains j a || contains j b)
unfolding contains
contains-append [] b j = refl
contains-append (i ∷ a) b j = ground (arith, contains-append a b j)

append-IsDistinct :
    (a b : HashSet)
    → IsDistinct a
    → IsDistinct b
    → ((j : Bytes) → contains j b ≡ true → contains j a ≡ false)
    → IsDistinct (a ++ b)
append-IsDistinct [] b da db h = db
append-IsDistinct (i ∷ a) b da db h = (
  rw (contains-append a b i, da.0)
      (elim (Bool-cases (contains i b)) [
        | inr out ↦ out
        | inl held ↦ let clash = h i held in unfold contains in ground (arith, bytes_eq_refl i)
      ]),
  append-IsDistinct a b da.1 db (λ j held. let clash = h j held in unfold contains in ground arith),
)

member_of : (s : HashSet) → Respects (λ m. contains m s)
member_of s a b h = contains-congr a b s h

not_member_of : (s : HashSet) → Respects (λ m. not (contains m s))
not_member_of s a b h = ap not (contains-congr a b s h)

module _ (a b : HashSet) (j : Bytes) where
  pub contains-intersection : contains j (intersection a b) ≡ (contains j a && contains j b)
  unfolding intersection
  contains-intersection = contains-keep (λ m. contains m b) (member_of b) a j

  pub contains-difference : contains j (difference a b) ≡ (contains j a && not (contains j b))
  unfolding difference
  contains-difference = contains-keep (λ m. not (contains m b)) (not_member_of b) a j

  pub contains-union : contains j (union a b) ≡ (contains j a || contains j b)
  unfolding union
  contains-union =
      contains-append a (difference b a) j
      ∙ ground (arith, contains-keep (λ m. not (contains m a)) (not_member_of a) b j)

module _ (a b : HashSet) (da : IsDistinct a) where
  pub intersection-IsDistinct : IsDistinct (intersection a b)
  unfolding intersection
  intersection-IsDistinct = keep-IsDistinct (λ m. contains m b) (member_of b) a da

  pub difference-IsDistinct : IsDistinct (difference a b)
  unfolding difference
  difference-IsDistinct = keep-IsDistinct (λ m. not (contains m b)) (not_member_of b) a da

pub union-IsDistinct : (a b : HashSet) → IsDistinct a → IsDistinct b → IsDistinct (union a b)
unfolding union
union-IsDistinct a b da db =
    append-IsDistinct a (difference b a) da (difference-IsDistinct b a db)
      (λ j held. let e = contains-difference b a j in ground arith)
