-- ===== src/Server/Registry.antt =====
-- command_registry.rs: the table of commands and `dispatch`.
pub mod Families
pub mod Laws
use shrikedb.Prelude.{
  ℕ, zero, suc, ◌+◌, ◌-◌, ◌%◌, ◌≡◌, refl, Bool, true, false, not, ◌&&◌, Option, none, some, List,
  [], ◌∷◌, ◌++◌, ltb, leb, ◌==◌, if◌then◌else◌, length,
}
use shrikedb.Prelude.Int.{ℤ, pos, negsuc}
use shrikedb.Std.Bytes.{Bytes, codes, bytes_eq}
use shrikedb.Std.Text.{is_utf8, to_ascii_uppercase, to_lowercase}
use shrikedb.Core.Key.{bytes_key}
use shrikedb.Core.Contract
use shrikedb.Core.Contract.{Entries}
use shrikedb.Facade.Resp.{RespExpr, RespArgs, as_bytes}
use shrikedb.Facade.Reply.{Reply, ok, err}
use shrikedb.Server.Context.{Context, EngineShard, M, ◌>>=◌, ◌>>◌, pure, send, add_u64}

pub record CommandEntry : Type 0 where
  pub name : Bytes
  pub handler : RespArgs → M (Unit {0})
  pub arity : ℤ
  pub first_key : ℕ
  pub last_key : ℤ
  pub key_step : ℕ

abbrev pub CommandRegistry : Type 0
CommandRegistry = Entries Bytes CommandEntry

unfoldable pub register : CommandEntry → CommandRegistry → CommandRegistry
register e r = Contract.insert e.name e r

-- `args.len() as i16`
abbrev pub as_i16 : ℕ → ℤ
as_i16 n = let low = n % 65536 in if ltb low 32768 then pos low else negsuc (65535 - low)

abbrev equal_ℤ : ℤ → ℤ → Bool
equal_ℤ (pos a) (pos b) = a == b
equal_ℤ (negsuc a) (negsuc b) = a == b
equal_ℤ _ _ = false

-- `argc < -arity` for a negative arity.
abbrev fewer : ℤ → ℕ → Bool
fewer (pos a) b = ltb a b
fewer (negsuc a) b = true

-- The two arity checks.
unfoldable pub arity_fits : ℤ → ℕ → Bool
arity_fits (pos zero) n = true
arity_fits (pos (suc a)) n = equal_ℤ (as_i16 n) (pos (suc a))
arity_fits (negsuc a) n = not (fewer (as_i16 n) (suc a))

abbrev pub wrong_arity : Bytes → Reply
wrong_arity name =
    err (codes "wrong number of arguments for '" ++ (to_lowercase name ++ codes "' command"))

abbrev pub unknown_command : Bytes → Reply
unknown_command name =
    err (codes "unknown command '" ++ (to_lowercase name ++ codes "', with args beginning with: "))

unfoldable pub count_command : M (Unit {0})
count_command c = some (
  tt,
  record c { shard = record c.shard { commands_processed = add_u64 c.shard.commands_processed 1 } },
)

-- A handler runs if the arity fits; the connection stays open.
unfoldable pub run_entry : CommandEntry → Bytes → RespArgs → M Bool
unfolding arity_fits count_command
run_entry entry name args =
    if arity_fits entry.arity (length args)
    then (do count_command; entry.handler args; pure true)
    else (do send (wrong_arity name); pure true)

unfoldable pub dispatch_name : CommandRegistry → Bytes → RespArgs → M Bool
unfolding run_entry
dispatch_name registry name args =
    if is_utf8 name
    then (if bytes_eq name (codes "QUIT")
        then (do send ok; pure false)
        else elim (Contract.find name registry) [
          | none ↦ do send (unknown_command name); pure true
          | some entry ↦ run_entry entry name args
        ])
    else (do send (err (codes "invalid command encoding")); pure true)

-- `false` if the connection should close.
unfoldable pub dispatch : CommandRegistry → RespArgs → M Bool
unfolding dispatch_name
dispatch registry [] = do send (err (codes "empty command")); pure true
dispatch registry (e ∷ args) = elim (as_bytes e) [
  | none ↦ do send (err (codes "invalid command")); pure true
  | some b ↦ dispatch_name registry (to_ascii_uppercase b) (e ∷ args)
]
