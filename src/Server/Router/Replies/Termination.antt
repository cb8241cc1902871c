-- ===== src/Server/Router/Replies/Termination.antt =====
-- The fuel of `parse_resp_array` is enough.
use shrikedb.Prelude.{
  ℕ, zero, suc, ◌+◌, ◌≤◌, ◌<◌, ◌≢◌, Bool, true, false, Bool-cases, inl, inr, Option, none, some,
  List, [], ◌∷◌, arith, leb, ◌==◌, length, take, drop, length-drop,
}
use shrikedb.Prelude.Int.{ℤ, pos, negsuc}
use shrikedb.Std.Bytes.{Bytes}
use shrikedb.Server.Router.Replies.{
  split_at, number, or_minus_one, element, bulk, elements, parse_resp_array,
}

length-split_at : (c : ℕ) (s : Bytes) → length (split_at c s).1 ≤ length s
unfolding split_at
length-split_at c [] = omega arith
length-split_at c (b ∷ s) = ground (arith, length-split_at c s)

abbrev IsFound : Option (List (Option Bytes)) → Type 0
IsFound r = r ≢ none

element-some :
    (v : Option Bytes) (r : Option (List (Option Bytes))) → IsFound r → IsFound (element v r)
element-some v none h = h
element-some v (some vs) h = λ e. cc

module _ (next : Bytes → Option (List (Option Bytes))) (rest : Bytes)
    (shorter : (t : Bytes) → length t ≤ length rest → IsFound (next t)) where
  sized-some :
      (len : ℕ) (b : Bool)
      → IsFound (elim b [
        | true ↦ element (some (take len (drop 2 rest))) (next (drop (len + 2) (drop 2 rest)))
        | false ↦ some []
      ])
  sized-some len true =
      element-some (some (take len (drop 2 rest))) (next (drop (len + 2) (drop 2 rest))) (
        shorter (drop (len + 2) (drop 2 rest))
          (omega (arith, length-drop (len + 2) (drop 2 rest), length-drop 2 rest)))
  sized-some len false = λ e. cc

  length-some :
      (n : ℤ)
      → IsFound (elim n [
        | negsuc n ↦ element none (next (drop 2 rest))
        | pos len ↦ elim (leb (len + 2) (length rest)) [
          | true ↦ element (some (take len (drop 2 rest))) (next (drop (len + 2) (drop 2 rest)))
          | false ↦ some []
        ]
      ])
  length-some (negsuc n) =
      element-some none (next (drop 2 rest))
        (shorter (drop 2 rest) (omega (arith, length-drop 2 rest)))
  length-some (pos len) = sized-some len (leb (len + 2) (length rest))

  bulk-some : (text : Bytes) → IsFound (bulk next (text, rest))
  unfolding bulk
  bulk-some text = length-some (or_minus_one (number text))

elements-some : (f : ℕ) (s : Bytes) → length s < f → IsFound (elements f s)
unfolding elements
elements-some zero s h = absurd (omega arith)
elements-some (suc f) [] h = λ e. cc
elements-some (suc f) (b ∷ s) h = elim (Bool-cases (b == b'$')) [
  | inl dollar ↦
      rw (elements, dollar)
        (bulk-some (elements f) (split_at 13 s).1
          (λ t p. elements-some f t (omega (arith, length-split_at 13 s))) (split_at 13 s).0)
  | inr other ↦
      rw (elements, other)
        (elements-some f (drop 1 (split_at 10 (b ∷ s)).1)
          (omega (arith, length-drop 1 (split_at 10 (b ∷ s)).1, length-split_at 10 (b ∷ s))))
]

-- The loop of `parse_resp_array` ends on all bytes.
pub parse_resp_array-some : (reply : Bytes) → parse_resp_array reply ≢ none
unfolding parse_resp_array
parse_resp_array-some [] = λ e. cc
parse_resp_array-some (b ∷ s) = elim (Bool-cases (b == b'*')) [
  | inl star ↦ rw star (
      elements-some (length s + 1) (drop 1 (split_at 10 s).1)
        (omega (arith, length-drop 1 (split_at 10 s).1, length-split_at 10 s)))
  | inr other ↦ rw other (λ e. cc)
]
