-- ===== src/Server/Commands/Hashes/Stored.antt =====
-- The map that a key holds, for the laws of the commands on hashes.
use shrikedb.Prelude.{◌≡◌, refl, ◌⊎◌, inl, inr, Option, none, some, [], ◌∷◌}
use shrikedb.Core.CompactObj
use shrikedb.Core.CompactObj.{PrimeValue, string, list, set, hash, zset}
use shrikedb.Server.DbSlice.View.{Visible}
use shrikedb.Server.Commands.Typed.{missing, other, held}
use shrikedb.Server.Commands.Typed.Laws.{seen_as}
use shrikedb.Server.Commands.Hashes.{HashMap, as_hash}

-- The map that is seen, the empty one if no key is; `none` for a value of another type.
abbrev pub stored_hash : Visible → Option HashMap
stored_hash none = some []
stored_hash (some (hash s, d)) = some s
stored_hash (some (string x, d)) = none
stored_hash (some (CompactObj.integer x, d)) = none
stored_hash (some (list x, d)) = none
stored_hash (some (set x, d)) = none
stored_hash (some (zset x y, d)) = none

-- The map as a value; the key goes with the last field.
abbrev pub kept_hash : HashMap → Option PrimeValue
kept_hash [] = none
kept_hash (m ∷ s) = some (hash (m ∷ s))

pub stored_hash-cases :
    (x : Visible)
    → ((x ≡ none) × (seen_as as_hash x ≡ missing) × (stored_hash x ≡ some []))
      ⊎ (((seen_as as_hash x ≡ other) × (stored_hash x ≡ none))
          ⊎ ((s : HashMap) × (seen_as as_hash x ≡ held s) × (stored_hash x ≡ some s)))
stored_hash-cases none = inl (refl, refl, refl)
stored_hash-cases (some (hash s, d)) = inr (inr (s, refl, refl))
stored_hash-cases (some (string x, d)) = inr (inl (refl, refl))
stored_hash-cases (some (CompactObj.integer x, d)) = inr (inl (refl, refl))
stored_hash-cases (some (list x, d)) = inr (inl (refl, refl))
stored_hash-cases (some (set x, d)) = inr (inl (refl, refl))
stored_hash-cases (some (zset x y, d)) = inr (inl (refl, refl))
