-- ===== src/Core/Dash/Bits.antt =====
-- Bits of machine words: `(w >> i) & 1 != 0`, `w |= 1 << i`, `w &= !(1 << i)`, `w >> k` and
-- `trailing_zeros`, for bits within the word.
use shrikedb.Prelude.{
  ℕ, zero, suc, ◌+◌, ◌-◌, ◌*◌, ◌/◌, ◌%◌, ◌≤◌, ◌<◌, ◌≡◌, refl, ap, Bool, true, false, not, arith,
  ◌==◌, ◌≢◌, if◌then◌else◌, ltb, ◌&&◌, Bool-cases, inl, inr,
}

unfoldable pub test_bit : ℕ → ℕ → Bool
test_bit zero w = w % 2 == 1
test_bit (suc i) w = test_bit i (w / 2)

unfoldable pub set_bit : ℕ → ℕ → ℕ
set_bit zero w = w / 2 * 2 + 1
set_bit (suc i) w = set_bit i (w / 2) * 2 + w % 2

unfoldable pub clear_bit : ℕ → ℕ → ℕ
clear_bit zero w = w / 2 * 2
clear_bit (suc i) w = clear_bit i (w / 2) * 2 + w % 2

unfoldable pub shift_right : ℕ → ℕ → ℕ
shift_right zero w = w
shift_right (suc k) w = shift_right k (w / 2)

-- The number of zeros below the lowest one, at most `bits`.
unfoldable pub trailing_zeros : ℕ → ℕ → ℕ
trailing_zeros zero w = 0
trailing_zeros (suc bits) w =
    let rest = trailing_zeros bits (w / 2) in if w % 2 == 1 then 0 else suc rest

half_even : (x r : ℕ) → r < 2 → (x * 2 + r) / 2 ≡ x
half_even x r h = omega arith

half_double : (x : ℕ) → x * 2 / 2 ≡ x
half_double x = omega arith

pub test_bit-set_bit :
    (i j w : ℕ) → test_bit j (set_bit i w) ≡ (if i == j then true else test_bit j w)
unfolding test_bit set_bit
test_bit-set_bit zero zero w = ground arith
test_bit-set_bit zero (suc j) w = rw (half_even (w / 2) 1 (omega arith)) (ground arith)
test_bit-set_bit (suc i) zero w = ground arith
test_bit-set_bit (suc i) (suc j) w =
    rw (half_even (set_bit i (w / 2)) (w % 2) (omega arith))
      (ground (arith, test_bit-set_bit i j (w / 2)))

pub test_bit-clear_bit :
    (i j w : ℕ) → test_bit j (clear_bit i w) ≡ (if i == j then false else test_bit j w)
unfolding test_bit clear_bit
test_bit-clear_bit zero zero w = ground arith
test_bit-clear_bit zero (suc j) w = rw (half_double (w / 2)) (ground arith)
test_bit-clear_bit (suc i) zero w = ground arith
test_bit-clear_bit (suc i) (suc j) w =
    rw (half_even (clear_bit i (w / 2)) (w % 2) (omega arith))
      (ground (arith, test_bit-clear_bit i j (w / 2)))

pub test_bit-shift_right : (i k n w : ℕ) → n ≡ k + i → test_bit i (shift_right k w) ≡ test_bit n w
unfolding test_bit shift_right
test_bit-shift_right i zero n w e = let same : i ≡ n = omega arith in ap (λ x. test_bit x w) same
test_bit-shift_right i (suc k) zero w e = absurd (omega arith)
test_bit-shift_right i (suc k) (suc n) w e = test_bit-shift_right i k n (w / 2) (omega arith)

-- The low four bits do not matter to the bits above them.
pub test_bit-above : (i v w : ℕ) → v / 16 ≡ w / 16 → 4 ≤ i → test_bit i v ≡ test_bit i w
unfolding test_bit
test_bit-above zero v w e h = absurd (omega arith)
test_bit-above (suc zero) v w e h = absurd (omega arith)
test_bit-above (suc (suc zero)) v w e h = absurd (omega arith)
test_bit-above (suc (suc (suc zero))) v w e h = absurd (omega arith)
test_bit-above (suc (suc (suc (suc i)))) v w e h =
    let same : v / 2 / 2 / 2 / 2 ≡ w / 2 / 2 / 2 / 2 = omega arith in ap (test_bit i) same

-- A change of a higher bit leaves the low four bits.
pub set_bit-low : (i w : ℕ) → 4 ≤ i → set_bit i w % 16 ≡ w % 16
unfolding set_bit
set_bit-low zero w h = absurd (omega arith)
set_bit-low (suc zero) w h = absurd (omega arith)
set_bit-low (suc (suc zero)) w h = absurd (omega arith)
set_bit-low (suc (suc (suc zero))) w h = absurd (omega arith)
set_bit-low (suc (suc (suc (suc i)))) w h = omega arith

pub clear_bit-low : (i w : ℕ) → 4 ≤ i → clear_bit i w % 16 ≡ w % 16
unfolding clear_bit
clear_bit-low zero w h = absurd (omega arith)
clear_bit-low (suc zero) w h = absurd (omega arith)
clear_bit-low (suc (suc zero)) w h = absurd (omega arith)
clear_bit-low (suc (suc (suc zero))) w h = absurd (omega arith)
clear_bit-low (suc (suc (suc (suc i)))) w h = omega arith

-- `x & ((1 << k) - 1)` and `!x & ((1 << k) - 1)`.
unfoldable pub low_bits : ℕ → ℕ → ℕ
low_bits zero x = 0
low_bits (suc k) x = low_bits k (x / 2) * 2 + x % 2

unfoldable pub flip_low : ℕ → ℕ → ℕ
flip_low zero x = 0
flip_low (suc k) x = flip_low k (x / 2) * 2 + (1 - x % 2)

pub test_bit-zero : (i : ℕ) → test_bit i 0 ≡ false
unfolding test_bit
test_bit-zero zero = refl
test_bit-zero (suc i) = test_bit-zero i

pub test_bit-low_bits : (i k x : ℕ) → test_bit i (low_bits k x) ≡ ltb i k && test_bit i x
unfolding test_bit low_bits
test_bit-low_bits zero zero x = refl
test_bit-low_bits (suc i) zero x = ground (arith, test_bit-zero i)
test_bit-low_bits zero (suc k) x = ground arith
test_bit-low_bits (suc i) (suc k) x =
    rw (half_even (low_bits k (x / 2)) (x % 2) (omega arith))
      (ground (arith, test_bit-low_bits i k (x / 2)))

pub test_bit-flip_low : (i k x : ℕ) → test_bit i (flip_low k x) ≡ ltb i k && not (test_bit i x)
unfolding test_bit flip_low
test_bit-flip_low zero zero x = refl
test_bit-flip_low (suc i) zero x = ground (arith, test_bit-zero i)
test_bit-flip_low zero (suc k) x = ground arith
test_bit-flip_low (suc i) (suc k) x =
    rw (half_even (flip_low k (x / 2)) (1 - x % 2) (omega arith))
      (ground (arith, test_bit-flip_low i k (x / 2)))

-- `trailing_zeros` finds a set bit below the width, and the lowest one.
pub trailing_zeros-set :
    (bits i w : ℕ)
    → i < bits
    → test_bit i w ≡ true
    → (test_bit (trailing_zeros bits w) w ≡ true) × (trailing_zeros bits w ≤ i)
unfolding test_bit trailing_zeros
trailing_zeros-set zero i w h set = absurd (omega arith)
trailing_zeros-set (suc bits) zero w h set =
    let odd : (w % 2 == 1) ≡ true = set in rw odd (set, omega arith)
trailing_zeros-set (suc bits) (suc i) w h set =
    let (rest_set, rest_least) = trailing_zeros-set bits i (w / 2) (omega arith) set in
    elim (Bool-cases (w % 2 == 1)) [
      | inl odd ↦ rw odd (odd, omega arith)
      | inr even ↦ rw even (rest_set, omega arith)
    ]

pub flip_low-nonzero :
    (k x : ℕ) → flip_low k x ≢ 0 → (i : ℕ) × (i < k) × (test_bit i (flip_low k x) ≡ true)
unfolding flip_low test_bit
flip_low-nonzero zero x h = absurd (h refl)
flip_low-nonzero (suc k) x h = elim (Bool-cases (x % 2 == 0)) [
  | inl even ↦ (0, omega arith, ground arith)
  | inr odd ↦
      let (i, below, set) = flip_low-nonzero k (x / 2) (λ e. h (ground arith)) in
      (suc i, omega arith, rw (half_even (flip_low k (x / 2)) (1 - x % 2) (omega arith)) set)
]

nonzero-bit_below : (n w : ℕ) → w ≤ n → w ≢ 0 → (i : ℕ) × (test_bit i w ≡ true)
unfolding test_bit
nonzero-bit_below zero w h nonzero = absurd (nonzero (omega arith))
nonzero-bit_below (suc n) w h nonzero = elim (Bool-cases (w % 2 == 1)) [
  | inl odd ↦ (0, odd)
  | inr even ↦
      let (i, set) = nonzero-bit_below n (w / 2) (omega arith) (λ e. nonzero (ground arith)) in
      (suc i, set)
]

-- A word that is not zero has a set bit.
pub nonzero-bit : (w : ℕ) → w ≢ 0 → (i : ℕ) × (test_bit i w ≡ true)
nonzero-bit w nonzero = nonzero-bit_below w w (omega arith) nonzero
