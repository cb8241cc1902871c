-- ===== src/Server/Context.antt =====
-- The context of a command handler (command_registry.rs, engine_shard.rs, conn_context.rs), as the
-- state of a monad. A panic of the source is `none`. Arithmetic on u64 wraps, as in a release build.
pub mod Laws
pub mod Answers
use shrikedb.Prelude.{
  ℕ, zero, suc, ◌+◌, ◌*◌, ◌%◌, Bool, true, false, Option, none, some, List, [], ◌∷◌, ◌++◌,
  get_elem?,
}
use shrikedb.Prelude.Int.{ℤ, pos, negsuc}
use shrikedb.Std.Bytes.{Bytes}
use shrikedb.Std.Text.{is_utf8, to_uppercase}
use shrikedb.Std.Integer.{parse_text, u64_modulus}
use shrikedb.Facade.Resp.{RespArgs, as_bytes}
use shrikedb.Facade.Reply.{Reply}
use shrikedb.Server.DbSlice.{DbTable, DbSlice, on_db}

pub record EngineShard : Type 0 where
  pub db_slice : DbSlice
  pub commands_processed : ℕ

-- `CommandContext` without its arguments; `reply` has the calls of the reply builder, in order.
pub record Context : Type 0 where
  pub db_index : ℕ
  pub shard : EngineShard
  pub reply : List Reply

abbrev pub M : Type 0 → Type 0
M A = Context → Option (A × Context)

abbrev pub pure : {A : Type 0} → A → M A
pure a c = some (a, c)

abbrev pub panic : {A : Type 0} → M A
panic c = none

infixl 5 ◌>>=◌ ◌>>◌
abbrev pub ◌>>=◌ : {A B : Type 0} → M A → (A → M B) → M B
◌>>=◌ m f c = elim (m c) [ none ↦ none | some (a, c') ↦ f a c' ]

abbrev pub ◌>>◌ : {A B : Type 0} → M A → M B → M B
m >> n = m >>= λ _. n

unfoldable pub send : Reply → M (Unit {0})
send r c = some (tt, record c { reply = c.reply ++ (r ∷ []) })

unfoldable pub send_all : List Reply → M (Unit {0})
send_all rs c = some (tt, record c { reply = c.reply ++ rs })

-- An operation on the selected database of the shard.
unfoldable pub on : {A : Type 0} → (ℕ → DbTable → DbTable × A) → M A
on f c = elim (on_db c.db_index f c.shard.db_slice) [
  | none ↦ none
  | some (s, a) ↦ some (a, record c { shard = record c.shard { db_slice = s } })
]

-- The same on a database named by its index.
unfoldable pub on_index : {A : Type 0} → ℕ → (ℕ → DbTable → DbTable × A) → M A
on_index i f c = elim (on_db i f c.shard.db_slice) [
  | none ↦ none
  | some (s, a) ↦ some (a, record c { shard = record c.shard { db_slice = s } })
]

unfoldable pub select : ℕ → M (Unit {0})
select i c = some (tt, record c { db_index = i })

abbrev pub now : M ℕ
now c = some (c.shard.db_slice.now_ms, c)

-- `ctx.args[idx].as_bytes()`; `none` where the index is out of range or the argument is no string.
unfoldable pub arg_bytes : RespArgs → ℕ → Option Bytes
arg_bytes args i = elim (get_elem? args i) [ none ↦ none | some e ↦ as_bytes e ]

-- `arg`, which unwraps.
unfoldable pub arg : RespArgs → ℕ → M Bytes
unfolding arg_bytes
arg args i c = elim (arg_bytes args i) [ none ↦ none | some b ↦ some (b, c) ]

abbrev valid : Bytes → Option Bytes
valid b = elim (is_utf8 b) [ true ↦ some b | false ↦ none ]

unfoldable pub arg_str : RespArgs → ℕ → Option Bytes
unfolding arg_bytes
arg_str args i = elim (arg_bytes args i) [ none ↦ none | some b ↦ valid b ]

unfoldable pub arg_int : RespArgs → ℕ → Option ℤ
unfolding arg_bytes
arg_int args i = elim (arg_bytes args i) [ none ↦ none | some b ↦ parse_text b ]

-- An option word: `arg_str(i).unwrap_or_default().to_uppercase()`.
unfoldable pub arg_word : RespArgs → ℕ → Bytes
unfolding arg_str
arg_word args i = elim (arg_str args i) [ none ↦ [] | some b ↦ to_uppercase b ]

abbrev pub positive_u64 : Option ℤ → Option ℕ
positive_u64 (some (pos (suc n))) = some (suc n)
positive_u64 _ = none

unfoldable pub arg_positive_int : RespArgs → ℕ → Option ℕ
unfolding arg_int
arg_positive_int args i = positive_u64 (arg_int args i)

abbrev pub add_u64 : ℕ → ℕ → ℕ
add_u64 a b = (a + b) % u64_modulus

abbrev pub mul_u64 : ℕ → ℕ → ℕ
mul_u64 a b = (a * b) % u64_modulus

-- `arg` for every index of `keys`; `args[1..]` for the commands with a list of keys.
unfoldable pub all_bytes : RespArgs → M (List Bytes)
all_bytes [] = pure []
all_bytes (e ∷ es) = elim (as_bytes e) [
  | none ↦ panic
  | some b ↦ (do bs ← all_bytes es; pure (b ∷ bs))
]

-- `_ => panic` and `unwrap` on a result that is not there.
abbrev pub unwrap : {A : Type 0} → Option A → M A
unwrap none c = none
unwrap (some a) c = some (a, c)

abbrev pub tail : RespArgs → RespArgs
tail [] = []
tail (e ∷ es) = es
