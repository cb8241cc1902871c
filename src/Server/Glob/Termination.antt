-- ===== src/Server/Glob/Termination.antt =====
-- The loop of `glob_match_str` ends: the fuel never runs out.
use shrikedb.Prelude.{
  ℕ, zero, suc, ◌+◌, ◌-◌, ◌*◌, ◌≤◌, ◌<◌, ◌≡◌, refl, Bool, true, false, ◌||◌, Option, none, some,
  arith, ltb, ◌==◌, if◌then◌else◌, length, Bool-cases, Option-cases, inl, inr, not, ◌&&◌,
}
use shrikedb.Std.Bytes.{Bytes}
use shrikedb.Std.Text.{between}
use shrikedb.Server.Glob.{
  State, Step, next, stop, nth, at, class_loop, backtrack, class_step, step, run, start_state,
  rounds, glob_match_str,
}

-- One row less.
row : (a b w : ℕ) → a ≡ suc b → a * w ≡ b * w + w
row a b w e = rw e (omega arith)

rows_mono : (a b w : ℕ) → a ≤ b → a * w ≤ b * w
rows_mono a b w h = grind arith

first_measure : (a b : ℕ) → (a - 0) * (b + 1) + (b - 0) < (a + 1) * (b + 1) + 1
first_measure a b = let e : a - 0 ≡ a = omega arith in rw e (omega arith)

module _ (pattern input : Bytes) where
  abbrev m : ℕ
  m = length pattern

  abbrev n : ℕ
  n = length input

  class_loop_bounds :
      (f c pi : ℕ) (matched : Bool)
      → pi ≤ m
      → (pi ≤ (class_loop pattern f c pi matched).0) × ((class_loop pattern f c pi matched).0 ≤ m)
  unfolding class_loop
  class_loop_bounds zero c pi matched h = (omega arith, h)
  class_loop_bounds (suc f) c pi matched h = ground (
    arith,
    class_loop_bounds f c (pi + 3) (matched || between (nth pattern pi) (nth pattern (pi + 2)) c),
    class_loop_bounds f c (pi + 1) (matched || (c == nth pattern pi)),
  )

  -- Positions stay in range, and the input position is not before the star's.
  record InRange (s : State) : Type 0 where
    pub pattern_end : s.pi ≤ m
    pub input_end : s.ii ≤ n
    pub star : s.star_ii ≤ s.ii
    pub star_pattern : (p : ℕ) → s.star_pi ≡ some p → p ≤ m

  abbrev measure : State → ℕ
  measure s = (n - s.star_ii) * (m + 1) + (m - s.pi)

  abbrev Falls : State → Step → Type 0
  Falls s (stop b) = Unit
  Falls s (next s') = InRange s' × (measure s' < measure s)

  backtrack-Falls : (s : State) → InRange s → s.ii < n → Falls s (backtrack pattern input s)
  unfolding backtrack
  backtrack-Falls s v h = elim (Option-cases s.star_pi) [
    | inl e ↦ rw (e, backtrack) tt
    | inr (p, e) ↦
        rw (e, backtrack)
          (
            record {
              pattern_end = v.star_pattern p e;
              input_end = omega (arith, v.star);
              star = omega arith;
              star_pattern = v.star_pattern;
            },
            omega (
              arith,
              v.star,
              v.pattern_end,
              v.star_pattern p e,
              row (n - s.star_ii) (n - (s.star_ii + 1)) (m + 1) (omega (arith, v.star)),
            ),
          )
  ]

  -- A bracket expression moves past its first byte.
  abbrev class_start : State → ℕ
  class_start s = if at pattern (s.pi + 1) b'^' then s.pi + 2 else s.pi + 1

  class_end : State → ℕ × Bool
  class_end s = class_loop pattern m (nth input s.ii) (class_start s) false

  class_end_bounds : (s : State) → s.pi < m → (s.pi < (class_end s).0) × ((class_end s).0 ≤ m)
  unfolding class_end
  class_end_bounds s k =
      let (low, high) = class_loop_bounds m (nth input s.ii) (class_start s) false (ground arith) in
      (ground (arith, low), high)

  after_class : ℕ → ℕ
  after_class pi = if ltb pi m then pi + 1 else pi

  moved-Falls :
      (s : State) (pi : ℕ)
      → InRange s
      → s.ii < n
      → s.pi < pi
      → pi ≤ m
      → Falls s (next (record s { pi = after_class pi; ii = s.ii + 1 }))
  unfolding after_class
  moved-Falls s pi v h low high = (
    record {
      pattern_end = ground arith;
      input_end = omega arith;
      star = omega (arith, v.star);
      star_pattern = v.star_pattern;
    },
    ground arith,
  )

  class_step-Falls :
      (s : State) → InRange s → s.ii < n → s.pi < m → Falls s (class_step pattern input s)
  unfolding class_step class_end after_class
  class_step-Falls s v h k =
      let (low, high) = class_end_bounds s k in
      elim (Bool-cases (
        if (class_end s).1 then at pattern (s.pi + 1) b'^' else not (at pattern (s.pi + 1) b'^'))) [
          | inl back ↦ rw (back, class_step) (backtrack-Falls s v h)
          | inr on ↦ rw (on, class_step) (moved-Falls s (class_end s).0 v h low high)
        ]

  -- The next positions of a step that does not back up.
  advance-Falls :
      (s : State)
      → InRange s
      → s.ii < n
      → s.pi < m
      → Falls s (next (record s { pi = s.pi + 1; ii = s.ii + 1 }))
  advance-Falls s v h k = (
    record {
      pattern_end = omega arith;
      input_end = omega arith;
      star = omega (arith, v.star);
      star_pattern = v.star_pattern;
    },
    omega arith,
  )

  star-Falls :
      (s : State)
      → InRange s
      → s.pi < m
      → Falls s (next (record s { star_pi = some s.pi; star_ii = s.ii; pi = s.pi + 1 }))
  star-Falls s v k = (
    record {
      pattern_end = omega arith;
      input_end = v.input_end;
      star = omega arith;
      star_pattern = λ p e. ground (arith, v.pattern_end);
    },
    omega (arith, rows_mono (n - s.ii) (n - s.star_ii) (m + 1) (omega (arith, v.star))),
  )

  step-Falls : (s : State) → InRange s → s.ii < n → Falls s (step pattern input s)
  unfolding step
  step-Falls s v h =
      elim (Bool-cases
        (ltb s.pi m && ((nth pattern s.pi == b'?') || (nth pattern s.pi == nth input s.ii)))) [
          | inl one ↦ rw (one, step) (advance-Falls s v h (ground arith))
          | inr no_one ↦ elim (Bool-cases (at pattern s.pi b'*')) [
            | inl many ↦ rw (no_one, many, step) (star-Falls s v (ground arith))
            | inr no_star ↦ elim (Bool-cases (at pattern s.pi b'[')) [
              | inl class ↦
                  rw (no_one, no_star, class, step) (class_step-Falls s v h (ground arith))
              | inr no_class ↦ rw (no_one, no_star, no_class, step) (backtrack-Falls s v h)
            ]
          ]
        ]

  abbrev Ends : Option Bool → Type 0
  Ends o = (b : Bool) × (o ≡ some b)

  abbrev taken : ℕ → Step → Option Bool
  taken f (stop b) = some b
  taken f (next s) = run pattern input f s

  run_taken :
      (f : ℕ) (s : State)
      → ltb s.ii n ≡ true
      → run pattern input (suc f) s ≡ taken f (step pattern input s)
  unfolding run
  run_taken f s h = rw (h, run) (ground arith)

  taken-Ends :
      (f : ℕ) (s : State) (t : Step)
      → InRange s
      → measure s < suc f
      → Falls s t
      → ((s' : State) → InRange s' → measure s' < f → Ends (run pattern input f s'))
      → Ends (taken f t)
  taken-Ends f s (stop b) v h falls ih = (b, refl)
  taken-Ends f s (next s') v h (v', less) ih = ih s' v' (omega arith)

  run-Ends : (f : ℕ) (s : State) → InRange s → measure s < f → Ends (run pattern input f s)
  unfolding run
  run-Ends zero s v h = absurd (omega arith)
  run-Ends (suc f) s v h = elim (Bool-cases (ltb s.ii n)) [
    | inl more ↦
        rw (run_taken f s more)
          (taken-Ends f s (step pattern input s) v h (step-Falls s v (ground arith)) (run-Ends f))
    | inr over ↦ rw (over, run) (_, refl)
  ]

  Ends-value : (o : Option Bool) → Ends o → o ≡ some (elim o [ none ↦ false | some b ↦ b ])
  Ends-value none (b, e) = cc
  Ends-value (some b) _ = refl

  start-InRange : InRange (start_state pattern input)
  start-InRange = record {
    pattern_end = omega arith;
    input_end = omega arith;
    star = omega arith;
    star_pattern = λ p e. cc;
  }

  -- The loop stops within `rounds` rounds, so that `glob_match_str` is what it returns.
  pub run-rounds :
      run pattern input (rounds pattern input) (start_state pattern input)
      ≡ some (glob_match_str pattern input)
  unfolding glob_match_str
  run-rounds = Ends-value (run pattern input (rounds pattern input) (start_state pattern input)) (
      run-Ends (rounds pattern input) (start_state pattern input) start-InRange (first_measure n m))
