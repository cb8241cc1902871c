-- ===== src/Facade/Parser.antt =====
-- `RespParser` of resp_parser.rs. The buffer is the bytes that are left; `parse` takes it with the
-- state of the parser and gives both back.
pub mod Termination
pub mod Limits
use shrikedb.Prelude.{
  ℕ, zero, suc, ◌+◌, ◌*◌, ◌≡◌, refl, Bool, true, false, ◌&&◌, ◌||◌, Option, none, some, List, [],
  ◌∷◌, ◌++◌, ltb, leb, ◌==◌, if◌then◌else◌, length, take, drop,
}
use shrikedb.Prelude.Int.{ℤ, pos, negsuc}
use shrikedb.Std.Bytes.{Bytes, codes}
use shrikedb.Std.Text.{is_utf8, trim, space_length}
use shrikedb.Std.Integer.{parse_text}
use shrikedb.Facade.Resp.{RespExpr, RespArgs, string, int, nil, error}

pub data ParseError : Type 0 where
  bad_array_len bad_bulk_len bad_integer bad_protocol : ParseError

pub data ParseResult : Type 0 where
  complete : RespArgs → ParseResult
  incomplete : ParseResult
  failed : ParseError → ParseResult

pub data State : Type 0 where
  init inline : State
  array_state : ℕ → RespArgs → State
  bulk_state : ℕ → RespArgs → ℕ → State

abbrev pub max_arr_len : ℕ
max_arr_len = 1024 * 1024

abbrev pub max_bulk_len : ℕ
max_bulk_len = 512 * 1024 * 1024

-- `parse_int`
unfoldable pub parse_int : Bytes → Option ℤ
parse_int s = parse_text s

abbrev pub with_byte : ℕ → Option (Bytes × Bytes) → Option (Bytes × Bytes)
with_byte c none = none
with_byte c (some (line, rest)) = some (c ∷ line, rest)

-- The first loop of `consume_line`: up to the first "\r\n".
unfoldable pub crlf_line : Bytes → Option (Bytes × Bytes)
crlf_line [] = none
crlf_line (a ∷ []) = none
crlf_line (a ∷ b ∷ s) =
    let later = crlf_line (b ∷ s) in
    if (a == b'\r') && (b == b'\n') then some ([], s) else with_byte a later

-- The second loop: up to the first "\n".
unfoldable pub lf_line : Bytes → Option (Bytes × Bytes)
lf_line [] = none
lf_line (a ∷ s) = let later = lf_line s in if a == b'\n' then some ([], s) else with_byte a later

-- A line without "\r" as its last byte.
abbrev pub without_cr : Bytes → Bytes
without_cr [] = []
without_cr (a ∷ []) = if a == b'\r' then [] else a ∷ []
without_cr (a ∷ b ∷ s) = a ∷ without_cr (b ∷ s)

unfoldable pub consume_line : Bytes → Option (Bytes × Bytes)
unfolding crlf_line lf_line
consume_line buf = elim (crlf_line buf) [
  | some taken ↦ some taken
  | none ↦ elim (lf_line buf) [ none ↦ none | some (line, rest) ↦ some (without_cr line, rest) ]
]

-- The bytes up to the next white space, and what follows; each round takes one byte.
abbrev word_end : Bytes → Bytes × Bytes
word_end [] = ([], [])
word_end (c ∷ s) =
    let (word, rest) = word_end s in
    if space_length (c ∷ s) == 0 then (c ∷ word, rest) else ([], c ∷ s)

abbrev add_word : Bytes → List Bytes → List Bytes
add_word [] words = words
add_word (c ∷ w) words = (c ∷ w) ∷ words

-- `split_whitespace`; each round drops a byte, so the length is enough rounds.
split_words : ℕ → Bytes → List Bytes
split_words zero s = []
split_words (suc n) [] = []
split_words (suc n) (c ∷ s) =
    let (word, rest) = word_end (c ∷ s) in
    let skipped = split_words n (drop (space_length (c ∷ s)) (c ∷ s)) in
    let taken = add_word word (split_words n rest) in
    if space_length (c ∷ s) == 0 then taken else skipped

abbrev as_args : List Bytes → RespArgs
as_args [] = []
as_args (w ∷ ws) = string w ∷ as_args ws

unfoldable pub parse_inline_args : Bytes → RespArgs
unfolding split_words
parse_inline_args line =
    if is_utf8 line then as_args (split_words (length line) (trim line)) else []

-- One round of the loop goes on, or returns with a state and a buffer.
pub data Round : Type 0 where
  again : State → Bytes → Round
  returned : ParseResult → State → Bytes → Round

-- `args.push(e)`, and what follows it.
unfoldable pub push_arg : ℕ → RespArgs → RespExpr → Bytes → Round
push_arg expected args e buf =
    let pushed = args ++ (e ∷ []) in
    if length pushed == expected
    then returned (complete pushed) init buf
    else again (array_state expected pushed) buf

-- The match on the length of an array.
unfoldable pub array_header : Option ℤ → Bytes → Round
array_header (some (pos n)) rest =
    if leb n max_arr_len
    then (if n == 0 then returned (complete []) init rest else again (array_state n []) rest)
    else returned (failed bad_array_len) init rest
array_header _ rest = returned (failed bad_array_len) init rest

-- The match on the length of a bulk string.
unfoldable pub bulk_header : ℕ → RespArgs → Option ℤ → Bytes → Round
unfolding push_arg
bulk_header expected args (some (negsuc zero)) rest = push_arg expected args nil rest
bulk_header expected args (some (pos n)) rest =
    if leb n max_bulk_len
    then again (bulk_state n args expected) rest
    else returned (failed bad_bulk_len) init rest
bulk_header expected args _ rest = returned (failed bad_bulk_len) init rest

unfoldable pub integer_line : ℕ → RespArgs → Option ℤ → Bytes → Round
unfolding push_arg
integer_line expected args (some n) rest = push_arg expected args (int n) rest
integer_line expected args none rest = returned (failed bad_integer) init rest

-- A line of the protocol; the parser waits in `state` if the line is not complete.
unfoldable pub on_line : State → Bytes → (Bytes → Bytes → Round) → Round
unfolding consume_line
on_line state buf f = elim (consume_line buf) [
  | none ↦ returned incomplete state buf
  | some (line, rest) ↦ f line rest
]

unfoldable pub init_round : Bytes → Round
unfolding on_line array_header
init_round [] = returned incomplete init []
init_round (c ∷ s) =
    if c == b'*'
    then on_line init (c ∷ s) (λ line rest. array_header (parse_int (drop 1 line)) rest)
    else if (c == b'\r') || (c == b'\n')
    then again init s
    else again inline (c ∷ s)

abbrev pub inline_args : RespArgs → Bytes → Round
inline_args [] rest = again init rest
inline_args (e ∷ es) rest = returned (complete (e ∷ es)) init rest

unfoldable pub inline_round : Bytes → Round
unfolding on_line parse_inline_args
inline_round buf = on_line inline buf (λ line rest. inline_args (parse_inline_args line) rest)

unfoldable pub array_round : ℕ → RespArgs → Bytes → Round
unfolding on_line bulk_header integer_line push_arg
array_round expected args [] = returned incomplete (array_state expected args) []
array_round expected args (c ∷ s) =
    let state = array_state expected args in
    if c == b'$'
    then on_line state (c ∷ s)
        (λ line rest. bulk_header expected args (parse_int (drop 1 line)) rest)
    else if c == b'+'
    then on_line state (c ∷ s) (λ line rest. push_arg expected args (string (drop 1 line)) rest)
    else if c == b':'
    then on_line state (c ∷ s)
        (λ line rest. integer_line expected args (parse_int (drop 1 line)) rest)
    else if c == b'-'
    then on_line state (c ∷ s) (λ line rest. push_arg expected args (error (drop 1 line)) rest)
    else returned (failed bad_protocol) init (c ∷ s)

unfoldable pub bulk_round : ℕ → RespArgs → ℕ → Bytes → Round
unfolding push_arg
bulk_round expected args array_expected buf =
    if ltb (length buf) (expected + 2)
    then returned incomplete (bulk_state expected args array_expected) buf
    else push_arg array_expected args (string (take expected buf)) (drop (expected + 2) buf)

unfoldable pub round : State → Bytes → Round
unfolding init_round inline_round array_round bulk_round
round init buf = init_round buf
round inline buf = inline_round buf
round (array_state expected args) buf = array_round expected args buf
round (bulk_state expected args array_expected) buf = bulk_round expected args array_expected buf

-- `none` if the fuel runs out.
unfoldable pub run : ℕ → State → Bytes → Option (ParseResult × State × Bytes)
unfolding round
run zero state buf = none
run (suc f) state buf = elim (round state buf) [
  | again state' buf' ↦ run f state' buf'
  | returned r state' buf' ↦ some (r, state', buf')
]

unfoldable pub parse : State → Bytes → Option (ParseResult × State × Bytes)
unfolding run
parse state buf = run (2 * length buf + 2) state buf

parse_set :
    parse init (codes "*2\r\n$3\r\nGET\r\n$1\r\nk\r\n+")
    ≡ some (complete (string (codes "GET") ∷ string (codes "k") ∷ []), init, codes "+")
unfolding parse parse_int parse_text
parse_set = refl

parse_inline :
    parse init (codes "\r\n ECHO  hello\n")
    ≡ some (complete (string (codes "ECHO") ∷ string (codes "hello") ∷ []), init, [])
unfolding parse is_utf8 trim
parse_inline = refl

parse_part : parse init (codes "*2\r\n$3\r\nGE") ≡ some (incomplete, bulk_state 3 [] 2, codes "GE")
unfolding parse parse_int parse_text
parse_part = refl
