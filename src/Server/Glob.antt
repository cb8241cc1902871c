-- ===== src/Server/Glob.antt =====
-- `glob_match` of db_slice.rs: the patterns of KEYS and SCAN. `usize::MAX` in `star_pi` is `none`.
pub mod Termination
use shrikedb.Prelude.{
  ℕ, zero, suc, ◌+◌, ◌*◌, ◌≡◌, refl, Bool, true, false, ◌&&◌, ◌||◌, not, Option, none, some, List,
  [], ◌∷◌, ltb, leb, ◌==◌, if◌then◌else◌, length, get_or, drop,
}
use shrikedb.Std.Bytes.{Bytes, codes}
use shrikedb.Std.Text.{between, is_utf8}

-- The variables of the loop.
pub record State : Type 0 where
  pub pi : ℕ
  pub ii : ℕ
  pub star_pi : Option ℕ
  pub star_ii : ℕ

pub data Step : Type 0 where
  next : State → Step
  stop : Bool → Step

abbrev pub nth : Bytes → ℕ → ℕ
nth s i = get_or s i 0

module _ (pattern : Bytes) where
  -- `pi < pattern.len() && pattern[pi] == c`
  abbrev pub at : ℕ → ℕ → Bool
  at pi c = ltb pi (length pattern) && (nth pattern pi == c)

  -- The loop over a bracket expression; each round moves `pi`, so the length is enough rounds.
  unfoldable pub class_loop : ℕ → ℕ → ℕ → Bool → ℕ × Bool
  class_loop zero c pi matched = (pi, matched)
  class_loop (suc f) c pi matched =
      let range =
        class_loop f c (pi + 3) (matched || between (nth pattern pi) (nth pattern (pi + 2)) c) in
      let single = class_loop f c (pi + 1) (matched || (c == nth pattern pi)) in
      let stay : ℕ × Bool = (pi, matched) in
      if ltb pi (length pattern) && not (nth pattern pi == b']')
      then (if ltb (pi + 2) (length pattern) && (nth pattern (pi + 1) == b'-')
          then range
          else single)
      else stay

-- The stars that are left, up to the end of the pattern.
pub all_stars : Bytes → Bool
all_stars [] = true
all_stars (c ∷ s) = (c == b'*') && all_stars s

module _ (pattern input : Bytes) where
  -- Back to the last star, which takes one more byte.
  unfoldable pub backtrack : State → Step
  backtrack s = elim s.star_pi [
    | none ↦ stop false
    | some p ↦ next (record s { pi = p; ii = s.star_ii + 1; star_ii = s.star_ii + 1 })
  ]

  -- A bracket expression at `pi`.
  unfoldable pub class_step : State → Step
  unfolding class_loop backtrack
  class_step s =
      let negate = at pattern (s.pi + 1) b'^' in
      let start = if negate then s.pi + 2 else s.pi + 1 in
      let (pi, matched) = class_loop pattern (length pattern) (nth input s.ii) start false in
      let after = if ltb pi (length pattern) then pi + 1 else pi in
      if (if matched then negate else not negate)
      then backtrack s
      else next (record s { pi = after; ii = s.ii + 1 })

  -- One round of the main loop, at a byte of the input.
  unfoldable pub step : State → Step
  unfolding class_step
  step s =
      if ltb s.pi (length pattern)
        && ((nth pattern s.pi == b'?') || (nth pattern s.pi == nth input s.ii))
      then next (record s { pi = s.pi + 1; ii = s.ii + 1 })
      else if at pattern s.pi b'*'
      then next (record s { star_pi = some s.pi; star_ii = s.ii; pi = s.pi + 1 })
      else if at pattern s.pi b'['
      then class_step s
      else backtrack s

  -- `none` if the fuel runs out.
  unfoldable pub run : ℕ → State → Option Bool
  unfolding step all_stars
  run zero s = none
  run (suc f) s =
      let done = some (all_stars (drop s.pi pattern)) in
      if ltb s.ii (length input)
      then elim (step s) [ stop b ↦ some b | next s' ↦ run f s' ]
      else done

  abbrev pub start_state : State
  start_state = record { pi = 0; ii = 0; star_pi = none; star_ii = 0 }

  -- The rounds that the loop makes at most.
  abbrev pub rounds : ℕ
  rounds = (length input + 1) * (length pattern + 1) + 1

  unfoldable pub glob_match_str : Bool
  unfolding run
  glob_match_str = elim (run rounds start_state) [ none ↦ false | some b ↦ b ]

  unfoldable pub glob_match : Bool
  unfolding glob_match_str
  glob_match = if is_utf8 input then glob_match_str else false

test_glob :
    (glob_match_str (codes "h[ae]llo") (codes "hello") ≡ true)
    × (glob_match_str (codes "h[^a-c]*o") (codes "hallo") ≡ false)
    × (glob_match_str (codes "*l*o") (codes "hello world, hello") ≡ true)
unfolding glob_match_str
test_glob = (refl, refl, refl)
