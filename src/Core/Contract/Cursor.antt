-- ===== src/Core/Contract/Cursor.antt =====
-- The iteration of a table by `scan`, from the cursor 0 until it is 0 again.
use shrikedb.Prelude.{
  ℕ, zero, suc, ◌+◌, ◌-◌, ◌%◌, ◌≤◌, ◌<◌, ◌≡◌, refl, ap, true, false, Option, none, some, List, [],
  ◌∷◌, ◌++◌, arith, ◌==◌, leb, ltb, min, length, take, drop, if◌then◌else◌, Bool-cases, inl, inr,
  take-append-drop, length-drop,
}
use shrikedb.Std.Integer.{u64_modulus}
use shrikedb.Core.Contract.{Entries, scan}

minus_zero : (n : ℕ) → n - 0 ≡ n
minus_zero n = omega arith

minus_suc : (e s : ℕ) → suc e - suc s ≡ e - s
minus_suc e s = omega arith

module _ {A : Type 0} where
  drop-all : (n : ℕ) (xs : List A) → length xs ≤ n → drop n xs ≡ []
  drop-all zero [] h = refl
  drop-all zero (x ∷ xs) h = absurd (omega arith)
  drop-all (suc n) [] h = refl
  drop-all (suc n) (x ∷ xs) h = drop-all n xs (omega arith)

  take-all : (n : ℕ) (xs : List A) → length xs ≤ n → take n xs ≡ xs
  take-all zero [] h = refl
  take-all zero (x ∷ xs) h = absurd (omega arith)
  take-all (suc n) [] h = refl
  take-all (suc n) (x ∷ xs) h = ap (λ t. x ∷ t) (take-all n xs (omega arith))

  take-nil : (n : ℕ) → take {A = A} n [] ≡ []
  take-nil zero = refl
  take-nil (suc n) = refl

  -- A slice and what comes after it.
  take-drop_append :
      (s e : ℕ) (xs : List A) → s ≤ e → take (e - s) (drop s xs) ++ drop e xs ≡ drop s xs
  take-drop_append zero e xs h = rw (minus_zero e) (take-append-drop e xs)
  take-drop_append (suc s) zero xs h = absurd (omega arith)
  take-drop_append (suc s) (suc e) [] h = rw (take-nil (suc e - suc s)) refl
  take-drop_append (suc s) (suc e) (x ∷ xs) h =
      rw (minus_suc e s) (take-drop_append s e xs (omega arith))

module _ {K V : Type 0} (count : ℕ) (m : Entries K V) where
  -- A client's loop: the entries of all calls, in order; `none` on a panic or if the fuel runs out.
  unfoldable pub scan_all : ℕ → ℕ → Option (Entries K V)
  scan_all zero start = none
  scan_all (suc f) start = elim (scan start count m) [
    | none ↦ none
    | some (es, next) ↦
        let rest = scan_all f next in
        if next == 0 then some es else elim rest [ none ↦ none | some more ↦ some (es ++ more) ]
  ]

  module _ (positive : 0 < count) (room : length m + count < u64_modulus) where
    scan-last :
        (start : ℕ)
        → start < length m
        → length m ≤ start + count
        → scan start count m ≡ some (drop start m, 0)
    unfolding scan
    scan-last start h last =
        let inside : leb (length m) start ≡ false = ground arith in
        let stops : min ((start + count) % u64_modulus) (length m) ≡ length m = omega arith in
        let ordered : ltb (length m) start ≡ false = ground arith in
        let whole : leb (length m) (length m) ≡ true = ground arith in
        rw
          (
            scan,
            inside,
            stops,
            ordered,
            whole,
            take-all (length m - start) (drop start m) (omega (arith, length-drop start m)),
          )
          refl

    scan-middle :
        (start : ℕ)
        → start + count < length m
        → scan start count m ≡ some (take (start + count - start) (drop start m), start + count)
    unfolding scan
    scan-middle start h =
        let inside : leb (length m) start ≡ false = ground arith in
        let stops : min ((start + count) % u64_modulus) (length m) ≡ start + count = omega arith in
        let ordered : ltb (start + count) start ≡ false = ground arith in
        let partly : leb (length m) (start + count) ≡ false = ground arith in
        rw (scan, inside, stops, ordered, partly) refl

    scan-end : (start : ℕ) → length m ≤ start → scan start count m ≡ some ([], 0)
    unfolding scan
    scan-end start h =
        let outside : leb (length m) start ≡ true = ground arith in rw (scan, outside) refl

    scan_all-drop : (f start : ℕ) → length m - start < f → scan_all f start ≡ some (drop start m)
    unfolding scan_all
    scan_all-drop zero start h = absurd (omega arith)
    scan_all-drop (suc f) start h = elim (Bool-cases (leb (length m) start)) [
      | inl over ↦
          rw (scan_all, scan-end start (ground arith), drop-all start m (ground arith)) refl
      | inr inside ↦ elim (Bool-cases (leb (length m) (start + count))) [
        | inl last ↦ rw (scan_all, scan-last start (ground arith) (ground arith)) refl
        | inr middle ↦
            let more : (start + count == 0) ≡ false = ground arith in
            rw
              (
                scan_all,
                scan-middle start (ground arith),
                more,
                scan_all-drop f (start + count) (ground arith),
                take-drop_append start (start + count) m (omega arith),
              )
              refl
      ]
    ]

  -- A client that calls `scan` from the cursor 0 until the cursor is 0 again gets every entry of a
  -- table that does not change exactly once, in the order of the table, within one call more than
  -- there are entries. The count is positive, and its sum with the number of entries is a u64.
  pub scan_all_complete :
      0 < count → length m + count < u64_modulus → scan_all (suc (length m)) 0 ≡ some m
  scan_all_complete positive room = scan_all-drop positive room (suc (length m)) 0 (omega arith)
