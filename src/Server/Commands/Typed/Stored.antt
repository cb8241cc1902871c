-- ===== src/Server/Commands/Typed/Stored.antt =====
-- The database after a command on one key, by the value that the key has then.
use shrikedb.Prelude.{
  ℕ, ◌≡◌, refl, ap, sym, ◌∙◌, Option, none, some, List, if◌then◌else◌, Bool-cases, inl, inr,
}
use shrikedb.Std.Bytes.{Bytes, bytes_eq, bytes_eq_sound}
use shrikedb.Core.CompactObj.{PrimeValue}
use shrikedb.Facade.Reply.{Reply}
use shrikedb.Server.DbSlice.{DbTable}
use shrikedb.Server.DbSlice.View.{Visible, view}
use shrikedb.Server.Context.{Context, M}
use shrikedb.Server.Context.Answers.{deadline_seen}
use shrikedb.Server.Commands.Typed.Laws.{Sends}

abbrev until : Option PrimeValue → Option ℕ → Visible
until none d = none
until (some v) d = some (v, d)

-- The key has the value with its old deadline, or is gone; the other keys are as they were.
abbrev pub replaced : Bytes → Option PrimeValue → ℕ → DbTable → Bytes → Visible
replaced key v t db j =
    if bytes_eq key j then until v (deadline_seen (view t db key)) else view t db j

pub replaced-none :
    (key : Bytes) (t : ℕ) (db : DbTable)
    → view t db key ≡ none
    → (j : Bytes) → view t db j ≡ replaced key none t db j
replaced-none key t db gone j = elim (Bool-cases (bytes_eq key j)) [
  | inl same ↦ rw same (ap (view t db) (sym (bytes_eq_sound key j same)) ∙ gone)
  | inr differ ↦ rw differ refl
]

-- The same run, its replies and its view written in another way.
pub Sends-same :
    {m : M (Unit {0})} {c : Context} {db : DbTable} {rs rs' : List Reply}
    {seen seen' : Bytes → Visible}
    → Sends m c db rs seen
    → rs ≡ rs'
    → ((j : Bytes) → seen j ≡ seen' j)
    → Sends m c db rs' seen'
Sends-same s replies views = record {
  after = s.after;
  run = rw (sym replies) s.run;
  sees = λ j. s.sees j ∙ views j;
  consistent = s.consistent;
}
