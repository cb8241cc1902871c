-- ===== src/Server/Commands/Strings/Options.antt =====
-- string_family.rs: SET and GETEX, whose arguments end in option words.
use shrikedb.Prelude.{
  ℕ, Bool, true, false, ◌&&◌, not, Option, none, some, [], ◌∷◌, if◌then◌else◌, ltb, drop, length,
}
use shrikedb.Std.Bytes.{Bytes, codes, bytes_eq}
use shrikedb.Core.CompactObj.{is_string, as_bytes, from_bytes}
use shrikedb.Facade.Resp.{RespExpr, RespArgs}
use shrikedb.Facade.Reply.{Reply, ok, null, err, wrong_type, bulk_string}
use shrikedb.Server.DbSlice.{
  find, exists, add_or_update, add_expire, remove_expire, ttl_ms, expires,
}
use shrikedb.Server.Context.{
  M, ◌>>=◌, ◌>>◌, pure, send, on, now, arg, arg_word, arg_positive_int, add_u64, mul_u64,
}
use shrikedb.Server.Commands.Strings.{not_an_integer, bulk_or_null, string_or}

pub record SetOptions : Type 0 where
  pub nx : Bool
  pub xx : Bool
  pub get : Bool
  pub keep_ttl : Bool
  pub expire_ms : Option ℕ
  pub expire_absolute : Bool

abbrev pub no_options : SetOptions
no_options = record {
  nx = false;
  xx = false;
  get = false;
  keep_ttl = false;
  expire_ms = none;
  expire_absolute = false;
}

-- The option words, and whether the time after EX, PX, EXAT and PXAT counts seconds and is absolute.
pub data Word : Type 0 where
  nx xx get keep_ttl persist other : Word
  expiry : Bool → Bool → Word

abbrev pub word : Bytes → Word
word s =
    if bytes_eq s (codes "NX")
    then nx
    else if bytes_eq s (codes "XX")
    then xx
    else if bytes_eq s (codes "GET")
    then get
    else if bytes_eq s (codes "KEEPTTL")
    then keep_ttl
    else if bytes_eq s (codes "EX")
    then expiry true false
    else if bytes_eq s (codes "PX")
    then expiry false false
    else if bytes_eq s (codes "EXAT")
    then expiry true true
    else if bytes_eq s (codes "PXAT")
    then expiry false true
    else if bytes_eq s (codes "PERSIST")
    then persist
    else other

-- The word of an argument, and its value as a positive number.
abbrev pub word_of : RespExpr → Word
word_of e = word (arg_word (e ∷ []) 0)

abbrev pub positive_of : RespExpr → Option ℕ
positive_of e = arg_positive_int (e ∷ []) 0

pub data Parsed : Type 0 where
  parsed : SetOptions → Parsed
  refused : Reply → Parsed

abbrev pub syntax_error : Reply
syntax_error = err (codes "syntax error")

abbrev pub scale : Bool → ℕ → ℕ
scale true n = mul_u64 n 1000
scale false n = n

abbrev pub with_time : Bool → Bool → ℕ → SetOptions → SetOptions
with_time seconds absolute n o = record o {
  expire_ms = some (scale seconds n);
  expire_absolute = absolute;
}

-- The loop over the arguments from the fourth on.
unfoldable pub set_options : RespArgs → SetOptions → Parsed
set_options [] o = parsed o
set_options (e ∷ []) o = elim (word_of e) [
  | nx ↦ parsed (record o { nx = true })
  | xx ↦ parsed (record o { xx = true })
  | get ↦ parsed (record o { get = true })
  | keep_ttl ↦ parsed (record o { keep_ttl = true })
  | persist ↦ refused syntax_error
  | other ↦ refused syntax_error
  | expiry seconds absolute ↦ refused not_an_integer
]
set_options (e ∷ v ∷ rest) o = elim (word_of e) [
  | nx ↦ set_options (v ∷ rest) (record o { nx = true })
  | xx ↦ set_options (v ∷ rest) (record o { xx = true })
  | get ↦ set_options (v ∷ rest) (record o { get = true })
  | keep_ttl ↦ set_options (v ∷ rest) (record o { keep_ttl = true })
  | persist ↦ refused syntax_error
  | other ↦ refused syntax_error
  | expiry seconds absolute ↦ elim (positive_of v) [
    | none ↦ refused not_an_integer
    | some n ↦ set_options rest (with_time seconds absolute n o)
  ]
]

-- The value before a SET with GET; `none` in the reply's place where the value is no string.
pub data Old : Type 0 where
  old : Option Bytes → Old
  not_a_string : Old

unfoldable pub capture : Bytes → SetOptions → M Old
capture key o =
    if o.get
    then (do
      r ← on (find key)
      elim r [
        | none ↦ pure (old none)
        | some r ↦
            if is_string r.value then pure (old (some (as_bytes r.value))) else pure not_a_string
      ])
    else pure (old none)

-- The deadline that KEEPTTL keeps.
unfoldable pub kept_deadline : Bytes → SetOptions → Bool → M (Option ℕ)
kept_deadline key o present =
    if o.keep_ttl && present
    then (do
      t ← on (ttl_ms key)
      n ← now
      elim t [ expires ms ↦ pure (some (add_u64 n ms)) | _ ↦ pure none ])
    else pure none

abbrev pub done : M (Unit {0})
done = pure tt

unfoldable pub set_expiry : Bytes → SetOptions → Option ℕ → M (Unit {0})
set_expiry key o old_expire = elim o.expire_ms [
  | some ms ↦ do n ← now; on (add_expire key (if o.expire_absolute then ms else add_u64 n ms))
  | none ↦ elim old_expire [
    | some deadline ↦ on (add_expire key deadline)
    | none ↦ if o.keep_ttl then done else (do on (remove_expire key); done)
  ]
]

-- SET once the NX and XX checks have passed.
unfoldable pub put_value : Bytes → Bytes → SetOptions → Option Bytes → Bool → M (Unit {0})
unfolding kept_deadline set_expiry
put_value key value o old_value present = do
  old_expire ← kept_deadline key o present
  on (add_or_update key (from_bytes value))
  set_expiry key o old_expire
  send (if o.get then bulk_or_null old_value else ok)

unfoldable pub checked : Bytes → Bytes → SetOptions → Option Bytes → Bool → M (Unit {0})
unfolding put_value
checked key value o old_value present =
    if o.nx && present
    then send (if o.get then bulk_or_null old_value else null)
    else if o.xx && not present
    then send null
    else put_value key value o old_value present

unfoldable pub store : Bytes → Bytes → SetOptions → Option Bytes → M (Unit {0})
unfolding checked
store key value o old_value = do present ← on (exists key); checked key value o old_value present

abbrev pub incompatible : Reply
incompatible = err (codes "XX and NX options at the same time are not compatible")

-- SET after its options are read.
unfoldable pub set_with : Bytes → Bytes → SetOptions → M (Unit {0})
unfolding capture store
set_with key value o = if o.nx && o.xx then send incompatible else (do
  before ← capture key o
  elim before [ old v ↦ store key value o v | not_a_string ↦ send (wrong_type []) ])

unfoldable pub cmd_set : RespArgs → M (Unit {0})
unfolding set_options set_with
cmd_set args = do
  key ← arg args 1
  value ← arg args 2
  elim (set_options (drop 3 args) no_options) [
    | parsed o ↦ set_with key value o
    | refused r ↦ send r
  ]

-- GETEX: the deadline changes only after the option is accepted.
getex_option : Bytes → RespArgs → Bytes → M (Unit {0})
getex_option key args v = elim (word (arg_word args 2)) [
  | expiry seconds absolute ↦ elim (arg_positive_int args 3) [
    | none ↦ send not_an_integer
    | some n ↦ do
      t ← now
      on (add_expire key (if absolute then scale seconds n else add_u64 t (scale seconds n)))
      send (bulk_string v)
  ]
  | persist ↦ do on (remove_expire key); send (bulk_string v)
  | _ ↦ send syntax_error
]

unfoldable pub cmd_getex : RespArgs → M (Unit {0})
unfolding getex_option
cmd_getex args = do
  key ← arg args 1
  r ← on (find key)
  string_or r (λ v. if ltb 2 (length args) then getex_option key args v else send (bulk_string v))
      (send null)
