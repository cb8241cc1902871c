-- ===== src/Core/Dash/SlotBitmap/Counted.antt =====
-- The counter of a bitmap is the number of slots in use.
use mathlib.Core.Path.{subst}
use shrikedb.Prelude.{
  ℕ, zero, suc, ◌+◌, ◌≤◌, ◌<◌, ◌≡◌, refl, sym, Bool, true, false, some, arith, ◌==◌, ltb,
  Bool-cases, inl, inr,
}
use shrikedb.Core.Dash.SlotBitmap.{
  SlotBitmap, num_slots, size, is_full, find_empty, set_slot, clear_slot,
}
use shrikedb.Core.Dash.SlotBitmap.Laws.{
  in_use, in_use-set_slot, in_use-clear_slot, size-set_slot, size-clear_slot, find_empty-some,
}

unfoldable pub bit : Bool → ℕ
bit true = 1
bit false = 0

-- The slots below `n` in use.
unfoldable pub used : ℕ → SlotBitmap → ℕ
unfolding bit
used zero w = 0
used (suc n) w = used n w + bit (in_use w n)

abbrev pub IsCounted : SlotBitmap → Type 0
IsCounted w = size w ≡ used num_slots w

used-le : (n : ℕ) (w : SlotBitmap) → used n w ≤ n
unfolding used bit
used-le zero w = omega arith
used-le (suc n) w = ground (arith, used-le n w)

used-free : (n : ℕ) (w : SlotBitmap) → used n w < n → (i : ℕ) × (i < n) × (in_use w i ≡ false)
unfolding used bit
used-free zero w h = absurd (omega arith)
used-free (suc n) w h = elim (Bool-cases (in_use w n)) [
  | inl taken ↦ let (i, below, free) = used-free n w (ground arith) in (i, omega arith, free)
  | inr free ↦ (n, omega arith, free)
]

pub ==_equal : (i j : ℕ) → (i == j) ≡ true → i ≡ j
==_equal i j h = ground arith

pub size-room : (w : SlotBitmap) → IsCounted w → size w < 15
size-room w counted = ground (arith, used-le num_slots w)

module _ (i : ℕ) (w : SlotBitmap) (inside : i < num_slots) where
  used-set_slot :
      (probing : Bool) (n : ℕ)
      → size w < 15
      → in_use w i ≡ false
      → n ≤ num_slots
      → used n (set_slot i probing w) ≡ used n w + bit (ltb i n)
  unfolding used bit
  used-set_slot probing zero room free h = ground arith
  used-set_slot probing (suc n) room free h =
      let ih = used-set_slot probing n room free (omega arith) in
      let here = in_use-set_slot i w inside probing n room in
      elim (Bool-cases (i == n)) [
        | inl same ↦
            let here_free : in_use w n ≡ false =
              subst (λ x. in_use w x ≡ false) (==_equal i n same) free in
            rw (here, same, here_free, ih) (ground arith)
        | inr other ↦ rw (here, other, ih) (ground arith)
      ]

  used-clear_slot :
      (n : ℕ)
      → in_use w i ≡ true
      → n ≤ num_slots
      → used n (clear_slot i w) + bit (ltb i n) ≡ used n w
  unfolding used bit
  used-clear_slot zero taken h = ground arith
  used-clear_slot (suc n) taken h =
      let ih = used-clear_slot n taken (omega arith) in
      let here = in_use-clear_slot i w inside n in
      elim (Bool-cases (i == n)) [
        | inl same ↦
            let here_taken : in_use w n ≡ true =
              subst (λ x. in_use w x ≡ true) (==_equal i n same) taken in
            rw (here, same, here_taken, sym ih) (ground arith)
        | inr other ↦ rw (here, other, sym ih) (ground arith)
      ]

  pub set_slot-IsCounted :
      (probing : Bool) → in_use w i ≡ false → IsCounted w → IsCounted (set_slot i probing w)
  set_slot-IsCounted probing free counted =
      let room : size w < 15 = ground (arith, used-le num_slots w) in
      let below : ltb i num_slots ≡ true = ground arith in
      let one : bit (ltb i num_slots) ≡ 1 = rw below (unfold bit in refl) in
      omega (
        arith,
        size-set_slot i w inside probing room,
        used-set_slot probing num_slots room free (omega arith),
        counted,
        one,
      )

  pub clear_slot-IsCounted : in_use w i ≡ true → IsCounted w → IsCounted (clear_slot i w)
  clear_slot-IsCounted taken counted =
      let below : ltb i num_slots ≡ true = ground arith in
      let one : bit (ltb i num_slots) ≡ 1 = rw below (unfold bit in refl) in
      omega (
        arith,
        size-clear_slot i w inside,
        used-clear_slot num_slots taken (omega arith),
        counted,
        one,
      )

-- A bucket that is not full has a slot for `find_empty`.
pub not_full-some :
    (w : SlotBitmap) → IsCounted w → is_full w ≡ false → (j : ℕ) × (find_empty w ≡ some j)
unfolding is_full
not_full-some w counted room =
    let (i, below, free) = used-free num_slots w (ground (arith, used-le num_slots w)) in
    find_empty-some w i below free

pub empty-IsCounted : IsCounted 0
unfolding size used bit shrikedb.Core.Dash.Bits.test_bit
empty-IsCounted = refl
