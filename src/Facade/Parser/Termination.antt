-- ===== src/Facade/Parser/Termination.antt =====
-- The loop of `parse` returns: each round takes bytes from the buffer, or leaves the initial state.
use shrikedb.Prelude.{
  ℕ, zero, suc, ◌+◌, ◌*◌, ◌<◌, ◌≤◌, ◌≡◌, refl, sym, ◌&&◌, ◌||◌, Option, none, some, [], ◌∷◌, ◌++◌,
  arith, ltb, leb, ◌==◌, length, take, drop, Bool-cases, Option-cases, inl, inr, length-drop,
}
use shrikedb.Prelude.Int.{ℤ, pos, negsuc}
use shrikedb.Std.Bytes.{Bytes}
use shrikedb.Facade.Resp.{RespExpr, RespArgs, string, int, nil, error}
use shrikedb.Facade.Parser.{
  State, init, inline, array_state, bulk_state, ParseResult, Round, again, returned, with_byte,
  crlf_line, lf_line, without_cr, consume_line, push_arg, array_header, bulk_header, integer_line,
  on_line, init_round, inline_args, inline_round, array_round, bulk_round, round, run, parse,
  parse_int, parse_inline_args, max_arr_len, max_bulk_len,
}

abbrev measure : State → Bytes → ℕ
measure init buf = 2 * length buf + 1
measure _ buf = 2 * length buf

measure-lt : (state : State) (buf : Bytes) → measure state buf < 2 * length buf + 2
measure-lt init buf = omega arith
measure-lt inline buf = omega arith
measure-lt (array_state expected args) buf = omega arith
measure-lt (bulk_state expected args array_expected) buf = omega arith

pub data Falls (n : ℕ) : Round → Type 0 where
  falls : (state : State) (buf : Bytes) → measure state buf < n → Falls n (again state buf)
  stops : (r : ParseResult) (state : State) (buf : Bytes) → Falls n (returned r state buf)

pair_rest :
    {l line r rest : Bytes}
    → ◌≡◌ {A = Option (Bytes × Bytes)} (some (l, r)) (some (line, rest))
    → r ≡ rest
pair_rest e = cc

with_byte-rest :
    (c : ℕ) (o : Option (Bytes × Bytes)) (line rest : Bytes)
    → with_byte c o ≡ some (line, rest)
    → (l : Bytes) × (o ≡ some (l, rest))
with_byte-rest c none line rest e = cc
with_byte-rest c (some (l, r)) line rest e = (l, cc)

crlf_line-shorter : (s line rest : Bytes) → crlf_line s ≡ some (line, rest) → length rest < length s
unfolding crlf_line
crlf_line-shorter [] line rest e = cc
crlf_line-shorter (a ∷ []) line rest e = cc
crlf_line-shorter (a ∷ b ∷ s) line rest e = elim (Bool-cases ((a == b'\r') && (b == b'\n'))) [
  | inl here ↦
      let same : ◌≡◌ {A = Option (Bytes × Bytes)} (some ([], s)) (some (line, rest)) =
        rw here at e in
      let end : s ≡ rest = pair_rest same in rw (sym end) (omega arith)
  | inr later ↦
      let (l, found) = with_byte-rest a (crlf_line (b ∷ s)) line rest (rw later at e) in
      omega (arith, crlf_line-shorter (b ∷ s) l rest found)
]

lf_line-shorter : (s line rest : Bytes) → lf_line s ≡ some (line, rest) → length rest < length s
unfolding lf_line
lf_line-shorter [] line rest e = cc
lf_line-shorter (a ∷ s) line rest e = elim (Bool-cases (a == b'\n')) [
  | inl here ↦
      let same : ◌≡◌ {A = Option (Bytes × Bytes)} (some ([], s)) (some (line, rest)) =
        rw here at e in
      let end : s ≡ rest = pair_rest same in rw (sym end) (omega arith)
  | inr later ↦
      let (l, found) = with_byte-rest a (lf_line s) line rest (rw later at e) in
      omega (arith, lf_line-shorter s l rest found)
]

pub consume_line-shorter :
    (s line rest : Bytes) → consume_line s ≡ some (line, rest) → length rest < length s
unfolding consume_line
consume_line-shorter s line rest e = elim (Option-cases (crlf_line s)) [
  | inr ((l, r), found) ↦
      let same : ◌≡◌ {A = Option (Bytes × Bytes)} (some (l, r)) (some (line, rest)) =
        rw (consume_line, found) at e in
      let end : r ≡ rest = pair_rest same in crlf_line-shorter s l rest (rw end at found)
  | inl absent ↦ elim (Option-cases (lf_line s)) [
    | inl short ↦ cc
    | inr ((l, r), found) ↦
        let same : ◌≡◌ {A = Option (Bytes × Bytes)} (some (without_cr l, r)) (some (line, rest)) =
          rw (consume_line, absent, found) at e in
        let end : r ≡ rest = pair_rest same in lf_line-shorter s l rest (rw end at found)
  ]
]

module _ (n : ℕ) where
  push_arg-Falls :
      (expected : ℕ) (args : RespArgs) (e : RespExpr) (buf : Bytes)
      → 2 * length buf < n
      → Falls n (push_arg expected args e buf)
  unfolding push_arg
  push_arg-Falls expected args e buf h = elim (Bool-cases (length (args ++ (e ∷ [])) == expected)) [
    | inl full ↦ rw (push_arg, full) (stops _ _ _)
    | inr fewer ↦ rw (push_arg, fewer) (falls _ _ (omega arith))
  ]

  on_line-Falls :
      (state : State) (buf : Bytes) (f : Bytes → Bytes → Round)
      → ((line rest : Bytes) → length rest < length buf → Falls n (f line rest))
      → Falls n (on_line state buf f)
  unfolding on_line
  on_line-Falls state buf f h = elim (Option-cases (consume_line buf)) [
    | inl absent ↦ rw (on_line, absent) (stops _ _ _)
    | inr ((line, rest), found) ↦
        rw (on_line, found) (h line rest (consume_line-shorter buf line rest found))
  ]

  array_header-Falls :
      (len : Option ℤ) (rest : Bytes) → 2 * length rest < n → Falls n (array_header len rest)
  unfolding array_header
  array_header-Falls none rest h = stops _ _ _
  array_header-Falls (some (negsuc k)) rest h = stops _ _ _
  array_header-Falls (some (pos k)) rest h = elim (Bool-cases (leb k max_arr_len)) [
    | inr wide ↦ rw (array_header, wide) (stops _ _ _)
    | inl fits ↦ elim (Bool-cases (k == 0)) [
      | inl nothing ↦ rw (array_header, fits, nothing) (stops _ _ _)
      | inr more ↦ rw (array_header, fits, more) (falls _ _ (omega arith))
    ]
  ]

  bulk_header-Falls :
      (expected : ℕ) (args : RespArgs) (len : Option ℤ) (rest : Bytes)
      → 2 * length rest < n
      → Falls n (bulk_header expected args len rest)
  unfolding bulk_header
  bulk_header-Falls expected args none rest h = stops _ _ _
  bulk_header-Falls expected args (some (negsuc zero)) rest h =
      push_arg-Falls expected args nil rest h
  bulk_header-Falls expected args (some (negsuc (suc k))) rest h = stops _ _ _
  bulk_header-Falls expected args (some (pos k)) rest h = elim (Bool-cases (leb k max_bulk_len)) [
    | inr wide ↦ rw (bulk_header, wide) (stops _ _ _)
    | inl fits ↦ rw (bulk_header, fits) (falls _ _ (omega arith))
  ]

  integer_line-Falls :
      (expected : ℕ) (args : RespArgs) (z : Option ℤ) (rest : Bytes)
      → 2 * length rest < n
      → Falls n (integer_line expected args z rest)
  unfolding integer_line
  integer_line-Falls expected args none rest h = stops _ _ _
  integer_line-Falls expected args (some z) rest h = push_arg-Falls expected args (int z) rest h

  inline_args-Falls :
      (args : RespArgs) (rest : Bytes) → 2 * length rest + 1 < n → Falls n (inline_args args rest)
  inline_args-Falls [] rest h = falls _ _ h
  inline_args-Falls (e ∷ es) rest h = stops _ _ _

init_round-Falls : (buf : Bytes) → Falls (2 * length buf + 1) (init_round buf)
unfolding init_round
init_round-Falls [] = stops _ _ _
init_round-Falls (c ∷ s) = elim (Bool-cases (c == b'*')) [
  | inl array ↦
      rw (init_round, array)
        (on_line-Falls _ init (c ∷ s) _
          (λ line rest h. array_header-Falls _ (parse_int (drop 1 line)) rest (omega arith)))
  | inr other ↦ elim (Bool-cases ((c == b'\r') || (c == b'\n'))) [
    | inl break ↦ rw (init_round, other, break) (falls _ _ (omega arith))
    | inr word ↦ rw (init_round, other, word) (falls _ _ (omega arith))
  ]
]

inline_round-Falls : (buf : Bytes) → Falls (2 * length buf) (inline_round buf)
unfolding inline_round
inline_round-Falls buf =
    on_line-Falls _ inline buf _
      (λ line rest h. inline_args-Falls _ (parse_inline_args line) rest (omega arith))

array_round-Falls :
    (expected : ℕ) (args : RespArgs) (buf : Bytes)
    → Falls (2 * length buf) (array_round expected args buf)
unfolding array_round
array_round-Falls expected args [] = stops _ _ _
array_round-Falls expected args (c ∷ s) = elim (Bool-cases (c == b'$')) [
  | inl bulk ↦
      rw (array_round, bulk)
        (on_line-Falls _ _ (c ∷ s) _ (λ line rest h.
          bulk_header-Falls _ expected args (parse_int (drop 1 line)) rest (omega arith)))
  | inr o1 ↦ elim (Bool-cases (c == b'+')) [
    | inl simple ↦
        rw (array_round, o1, simple)
          (on_line-Falls _ _ (c ∷ s) _ (λ line rest h.
            push_arg-Falls _ expected args (string (drop 1 line)) rest (omega arith)))
    | inr o2 ↦ elim (Bool-cases (c == b':')) [
      | inl number ↦
          rw (array_round, o1, o2, number)
            (on_line-Falls _ _ (c ∷ s) _ (λ line rest h.
              integer_line-Falls _ expected args (parse_int (drop 1 line)) rest (omega arith)))
      | inr o3 ↦ elim (Bool-cases (c == b'-')) [
        | inl minus ↦
            rw (array_round, o1, o2, o3, minus)
              (on_line-Falls _ _ (c ∷ s) _ (λ line rest h.
                push_arg-Falls _ expected args (error (drop 1 line)) rest (omega arith)))
        | inr o4 ↦ rw (array_round, o1, o2, o3, o4) (stops _ _ _)
      ]
    ]
  ]
]

bulk_round-Falls :
    (expected : ℕ) (args : RespArgs) (array_expected : ℕ) (buf : Bytes)
    → Falls (2 * length buf) (bulk_round expected args array_expected buf)
unfolding bulk_round
bulk_round-Falls expected args array_expected buf =
    elim (Bool-cases (ltb (length buf) (expected + 2))) [
      | inl short ↦ rw (bulk_round, short) (stops _ _ _)
      | inr whole ↦
          rw (bulk_round, whole)
            (push_arg-Falls _ array_expected args (string (take expected buf))
              (drop (expected + 2) buf) (ground (arith, length-drop (expected + 2) buf)))
    ]

round-Falls : (state : State) (buf : Bytes) → Falls (measure state buf) (round state buf)
unfolding round
round-Falls init buf = init_round-Falls buf
round-Falls inline buf = inline_round-Falls buf
round-Falls (array_state expected args) buf = array_round-Falls expected args buf
round-Falls (bulk_state expected args array_expected) buf =
    bulk_round-Falls expected args array_expected buf

module _ (f : ℕ)
    (ih : (state : State) (buf : Bytes)
      → measure state buf < f
      → (r : ParseResult × State × Bytes) × (run f state buf ≡ some r)) where
  follow :
      (n : ℕ) (r : Round)
      → Falls n r
      → n ≤ f
      → (result : ParseResult × State × Bytes) × ((elim r [
        | again state' buf' ↦ run f state' buf'
        | returned r state' buf' ↦ some (r, state', buf')
      ])
          ≡ some result)
  follow n (again state buf) (falls _ _ less) h = ih state buf (omega arith)
  follow n (returned r state buf) (stops _ _ _) h = ((r, state, buf), refl)

run-some :
    (f : ℕ) (state : State) (buf : Bytes)
    → measure state buf < f
    → (r : ParseResult × State × Bytes) × (run f state buf ≡ some r)
unfolding run
run-some zero state buf h = absurd (omega arith)
run-some (suc f) state buf h =
    follow f (run-some f) (measure state buf) (round state buf) (round-Falls state buf)
      (omega arith)

-- The parser returns from every state, with every buffer, within the fuel of `parse`.
pub parse-some :
    (state : State) (buf : Bytes) → (r : ParseResult × State × Bytes) × (parse state buf ≡ some r)
unfolding parse
parse-some state buf = run-some (2 * length buf + 2) state buf (measure-lt state buf)
