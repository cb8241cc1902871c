-- ===== src/Server/Commands/Sets/Stored.antt =====
-- The set that a key holds, for the laws of the commands on sets.
use shrikedb.Prelude.{◌≡◌, refl, ◌⊎◌, inl, inr, Option, none, some, [], ◌∷◌}
use shrikedb.Std.HashSet.{HashSet}
use shrikedb.Core.CompactObj
use shrikedb.Core.CompactObj.{PrimeValue, string, list, set, hash, zset}
use shrikedb.Server.DbSlice.View.{Visible}
use shrikedb.Server.Commands.Typed.{missing, other, held}
use shrikedb.Server.Commands.Typed.Laws.{seen_as}
use shrikedb.Server.Commands.Sets.{as_set}

-- The set that is seen, the empty one if no key is; `none` for a value of another type.
abbrev pub stored_set : Visible → Option HashSet
stored_set none = some []
stored_set (some (set s, d)) = some s
stored_set (some (string x, d)) = none
stored_set (some (CompactObj.integer x, d)) = none
stored_set (some (list x, d)) = none
stored_set (some (hash x, d)) = none
stored_set (some (zset x y, d)) = none

-- The set as a value; the key goes with the last member.
abbrev pub kept_set : HashSet → Option PrimeValue
kept_set [] = none
kept_set (m ∷ s) = some (set (m ∷ s))

pub stored_set-cases :
    (x : Visible)
    → ((x ≡ none) × (seen_as as_set x ≡ missing) × (stored_set x ≡ some []))
      ⊎ (((seen_as as_set x ≡ other) × (stored_set x ≡ none))
          ⊎ ((s : HashSet) × (seen_as as_set x ≡ held s) × (stored_set x ≡ some s)))
stored_set-cases none = inl (refl, refl, refl)
stored_set-cases (some (set s, d)) = inr (inr (s, refl, refl))
stored_set-cases (some (string x, d)) = inr (inl (refl, refl))
stored_set-cases (some (CompactObj.integer x, d)) = inr (inl (refl, refl))
stored_set-cases (some (list x, d)) = inr (inl (refl, refl))
stored_set-cases (some (hash x, d)) = inr (inl (refl, refl))
stored_set-cases (some (zset x y, d)) = inr (inl (refl, refl))
