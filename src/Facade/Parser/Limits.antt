-- ===== src/Facade/Parser/Limits.antt =====
-- The states that `parse` leaves: fewer arguments than the array has, and lengths within the limits.
use mathlib.Core.Path.{subst}
use shrikedb.Prelude.{
  ℕ, zero, suc, ◌+◌, ◌*◌, ◌<◌, ◌≤◌, ◌≡◌, ◌||◌, Option, none, some, [], ◌∷◌, ◌++◌, arith, ltb, leb,
  ◌==◌, length, take, drop, Bool-cases, Option-cases, inl, inr, length-append,
}
use shrikedb.Prelude.Int.{ℤ, pos, negsuc}
use shrikedb.Std.Bytes.{Bytes}
use shrikedb.Facade.Resp.{RespExpr, RespArgs, string, int, nil, error}
use shrikedb.Facade.Parser.{
  State, init, inline, array_state, bulk_state, ParseResult, Round, again, returned, consume_line,
  push_arg, array_header, bulk_header, integer_line, on_line, init_round, inline_args, inline_round,
  array_round, bulk_round, round, run, parse, parse_int, parse_inline_args, max_arr_len,
  max_bulk_len,
}

pub data IsOpen : State → Type 0 where
  open_init : IsOpen init
  open_inline : IsOpen inline
  open_array :
      (expected : ℕ) (args : RespArgs)
      → length args < expected
      → expected ≤ max_arr_len
      → IsOpen (array_state expected args)
  open_bulk :
      (n : ℕ) (args : RespArgs) (expected : ℕ)
      → length args < expected
      → expected ≤ max_arr_len
      → n ≤ max_bulk_len
      → IsOpen (bulk_state n args expected)

-- A round to such a state, or a return in it.
data Opens : Round → Type 0 where
  goes_on : (state : State) (buf : Bytes) → IsOpen state → Opens (again state buf)
  ends :
      (r : ParseResult) (state : State) (buf : Bytes) → IsOpen state → Opens (returned r state buf)

on_line-Opens :
    (state : State) (buf : Bytes) (f : Bytes → Bytes → Round)
    → IsOpen state
    → ((line rest : Bytes) → Opens (f line rest))
    → Opens (on_line state buf f)
unfolding on_line
on_line-Opens state buf f o h = elim (Option-cases (consume_line buf)) [
  | inl absent ↦ rw (on_line, absent) (ends _ _ _ o)
  | inr ((line, rest), found) ↦ rw (on_line, found) (h line rest)
]

module _ (expected : ℕ) (args : RespArgs) (room : length args < expected)
    (limit : expected ≤ max_arr_len) where
  push_arg-Opens : (e : RespExpr) (buf : Bytes) → Opens (push_arg expected args e buf)
  unfolding push_arg
  push_arg-Opens e buf = elim (Bool-cases (length (args ++ (e ∷ [])) == expected)) [
    | inl full ↦ rw (push_arg, full) (ends _ _ _ open_init)
    | inr fewer ↦
        rw (push_arg, fewer)
          (goes_on _ _ (open_array expected _ (ground (arith, length-append args (e ∷ []))) limit))
  ]

  bulk_header-Opens : (len : Option ℤ) (rest : Bytes) → Opens (bulk_header expected args len rest)
  unfolding bulk_header
  bulk_header-Opens none rest = ends _ _ _ open_init
  bulk_header-Opens (some (negsuc zero)) rest = push_arg-Opens nil rest
  bulk_header-Opens (some (negsuc (suc k))) rest = ends _ _ _ open_init
  bulk_header-Opens (some (pos k)) rest = elim (Bool-cases (leb k max_bulk_len)) [
    | inr wide ↦ rw (bulk_header, wide) (ends _ _ _ open_init)
    | inl fits ↦
        rw (bulk_header, fits) (goes_on _ _ (open_bulk k args expected room limit (ground arith)))
  ]

  integer_line-Opens : (z : Option ℤ) (rest : Bytes) → Opens (integer_line expected args z rest)
  unfolding integer_line
  integer_line-Opens none rest = ends _ _ _ open_init
  integer_line-Opens (some z) rest = push_arg-Opens (int z) rest

  array_round-Opens : (buf : Bytes) → Opens (array_round expected args buf)
  unfolding array_round
  array_round-Opens [] = ends _ _ _ (open_array expected args room limit)
  array_round-Opens (c ∷ s) =
      let o = open_array expected args room limit in
      elim (Bool-cases (c == b'$')) [
        | inl bulk ↦
            rw (array_round, bulk)
              (on_line-Opens _ (c ∷ s) _ o
                (λ line rest. bulk_header-Opens (parse_int (drop 1 line)) rest))
        | inr o1 ↦ elim (Bool-cases (c == b'+')) [
          | inl simple ↦
              rw (array_round, o1, simple)
                (on_line-Opens _ (c ∷ s) _ o
                  (λ line rest. push_arg-Opens (string (drop 1 line)) rest))
          | inr o2 ↦ elim (Bool-cases (c == b':')) [
            | inl number ↦
                rw (array_round, o1, o2, number)
                  (on_line-Opens _ (c ∷ s) _ o
                    (λ line rest. integer_line-Opens (parse_int (drop 1 line)) rest))
            | inr o3 ↦ elim (Bool-cases (c == b'-')) [
              | inl minus ↦
                  rw (array_round, o1, o2, o3, minus)
                    (on_line-Opens _ (c ∷ s) _ o
                      (λ line rest. push_arg-Opens (error (drop 1 line)) rest))
              | inr o4 ↦ rw (array_round, o1, o2, o3, o4) (ends _ _ _ open_init)
            ]
          ]
        ]
      ]

  bulk_round-Opens :
      (n : ℕ) (buf : Bytes) → n ≤ max_bulk_len → Opens (bulk_round n args expected buf)
  unfolding bulk_round
  bulk_round-Opens n buf h = elim (Bool-cases (ltb (length buf) (n + 2))) [
    | inl short ↦ rw (bulk_round, short) (ends _ _ _ (open_bulk n args expected room limit h))
    | inr whole ↦ rw (bulk_round, whole) (push_arg-Opens (string (take n buf)) (drop (n + 2) buf))
  ]

array_header-Opens : (len : Option ℤ) (rest : Bytes) → Opens (array_header len rest)
unfolding array_header
array_header-Opens none rest = ends _ _ _ open_init
array_header-Opens (some (negsuc k)) rest = ends _ _ _ open_init
array_header-Opens (some (pos k)) rest = elim (Bool-cases (leb k max_arr_len)) [
  | inr wide ↦ rw (array_header, wide) (ends _ _ _ open_init)
  | inl fits ↦ elim (Bool-cases (k == 0)) [
    | inl nothing ↦ rw (array_header, fits, nothing) (ends _ _ _ open_init)
    | inr more ↦
        rw (array_header, fits, more) (goes_on _ _ (open_array k [] (ground arith) (ground arith)))
  ]
]

inline_args-Opens : (args : RespArgs) (rest : Bytes) → Opens (inline_args args rest)
inline_args-Opens [] rest = goes_on _ _ open_init
inline_args-Opens (e ∷ es) rest = ends _ _ _ open_init

init_round-Opens : (buf : Bytes) → Opens (init_round buf)
unfolding init_round
init_round-Opens [] = ends _ _ _ open_init
init_round-Opens (c ∷ s) = elim (Bool-cases (c == b'*')) [
  | inl array ↦
      rw (init_round, array)
        (on_line-Opens init (c ∷ s) _ open_init
          (λ line rest. array_header-Opens (parse_int (drop 1 line)) rest))
  | inr other ↦ elim (Bool-cases ((c == b'\r') || (c == b'\n'))) [
    | inl break ↦ rw (init_round, other, break) (goes_on _ _ open_init)
    | inr word ↦ rw (init_round, other, word) (goes_on _ _ open_inline)
  ]
]

round-Opens : (state : State) (buf : Bytes) → IsOpen state → Opens (round state buf)
unfolding round inline_round
round-Opens init buf o = init_round-Opens buf
round-Opens inline buf o =
    on_line-Opens inline buf _ open_inline
      (λ line rest. inline_args-Opens (parse_inline_args line) rest)
round-Opens (array_state expected args) buf (open_array _ _ room limit) =
    array_round-Opens expected args room limit buf
round-Opens (bulk_state n args expected) buf (open_bulk _ _ _ room limit fits) =
    bulk_round-Opens expected args room limit n buf fits

module _ (f : ℕ)
    (ih : (state : State) (buf : Bytes) (r : ParseResult × State × Bytes)
      → IsOpen state
      → run f state buf ≡ some r
      → IsOpen r.1) where
  follow-IsOpen :
      (round : Round)
      → Opens round
      → (r : ParseResult × State × Bytes)
      → (elim round [
        | again state' buf' ↦ run f state' buf'
        | returned r state' buf' ↦ some (r, state', buf')
      ])
        ≡ some r
      → IsOpen r.1
  follow-IsOpen (again state buf) (goes_on _ _ o) r e = ih state buf r o e
  follow-IsOpen (returned result state buf) (ends _ _ _ o) r e =
      let same : ◌≡◌ {A = ParseResult × State × Bytes} (result, state, buf) r = cc in
      subst (λ x. IsOpen x.1) same o

run-IsOpen :
    (f : ℕ) (state : State) (buf : Bytes) (r : ParseResult × State × Bytes)
    → IsOpen state
    → run f state buf ≡ some r
    → IsOpen r.1
unfolding run
run-IsOpen zero state buf r o e = cc
run-IsOpen (suc f) state buf r o e =
    follow-IsOpen f (run-IsOpen f) (round state buf) (round-Opens state buf o) r e

-- From a state with fewer arguments than its array has, and lengths within the limits, `parse` only
-- returns in such a state again.
pub parse-IsOpen :
    (state : State) (buf : Bytes) (r : ParseResult × State × Bytes)
    → IsOpen state
    → parse state buf ≡ some r
    → IsOpen r.1
unfolding parse
parse-IsOpen state buf r o e = run-IsOpen (2 * length buf + 2) state buf r o e
