-- ===== src/Core/Key.antt =====
-- What a table asks of its keys (`Eq`): a Boolean equality that need not be the identity.
use shrikedb.Prelude.{◌≡◌, refl, ap, Bool, true, [], ◌∷◌, arith}
use shrikedb.Std.Bytes.{Bytes, bytes_eq, bytes_eq_refl, bytes_eq_sound}

pub record Key (K : Type 0) : Type 0 where
  pub equal : K → K → Bool
  pub equal_refl : (a : K) → equal a a ≡ true
  pub equal_symm : (a b : K) → equal a b ≡ equal b a
  pub equal_congr : (a b c : K) → equal a b ≡ true → equal a c ≡ equal b c

pub bytes_eq_congr : (a b c : Bytes) → bytes_eq a b ≡ true → bytes_eq a c ≡ bytes_eq b c
bytes_eq_congr a b c h = ap (λ s. bytes_eq s c) (bytes_eq_sound a b h)

pub bytes_eq_symm : (a b : Bytes) → bytes_eq a b ≡ bytes_eq b a
unfolding bytes_eq
bytes_eq_symm [] [] = refl
bytes_eq_symm [] (b ∷ t) = refl
bytes_eq_symm (a ∷ s) [] = refl
bytes_eq_symm (a ∷ s) (b ∷ t) = ground (arith, bytes_eq_symm s t)

instance abbrev pub bytes_key : Key Bytes
bytes_key = record {
  equal = bytes_eq;
  equal_refl = bytes_eq_refl;
  equal_symm = bytes_eq_symm;
  equal_congr = bytes_eq_congr;
}
