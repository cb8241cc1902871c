-- ===== src/Std/HashSet.antt =====
-- `HashSet<Vec<u8>>`: the members in the order of iteration, each once. No theorem depends on the
-- order.
pub mod Laws
use shrikedb.Prelude.{
  ℕ, ◌+◌, Bool, true, false, not, ◌&&◌, ◌||◌, List, [], ◌∷◌, ◌++◌, if◌then◌else◌,
}
use shrikedb.Std.Bytes.{Bytes, bytes_eq}

abbrev pub HashSet : Type 0
HashSet = List Bytes

unfoldable pub contains : Bytes → HashSet → Bool
contains m [] = false
contains m (j ∷ s) = bytes_eq m j || contains m s

-- The new set, and whether the member is new.
unfoldable pub insert : Bytes → HashSet → HashSet × Bool
unfolding contains
insert m s = if contains m s then (s, false) else (m ∷ s, true)

-- The new set, and whether the member was there.
unfoldable pub remove : Bytes → HashSet → HashSet × Bool
remove m [] = ([], false)
remove m (j ∷ s) =
    let (rest, found) = remove m s in if bytes_eq m j then (s, true) else (j ∷ rest, found)

-- The members with the property.
unfoldable pub keep : (Bytes → Bool) → HashSet → HashSet
keep p [] = []
keep p (m ∷ s) = let rest = keep p s in if p m then m ∷ rest else rest

-- `intersection`, `difference` and `union`, collected.
unfoldable pub intersection : HashSet → HashSet → HashSet
unfolding keep contains
intersection a b = keep (λ m. contains m b) a

unfoldable pub difference : HashSet → HashSet → HashSet
unfolding keep contains
difference a b = keep (λ m. not (contains m b)) a

unfoldable pub union : HashSet → HashSet → HashSet
unfolding difference
union a b = a ++ difference b a
