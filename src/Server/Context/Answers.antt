-- ===== src/Server/Context/Answers.antt =====
-- What a handler answers and leaves, in terms of the view of the selected database.
use shrikedb.Prelude.{
  ℕ, ◌≡◌, refl, ap, sym, ◌∙◌, Bool-cases, inl, inr, true, Option, none, some, [], ◌∷◌, arith,
  if◌then◌else◌,
}
use shrikedb.Std.Bytes.{Bytes, bytes_eq, bytes_eq_sound}
use shrikedb.Core.CompactObj.{PrimeValue, new_key}
use shrikedb.Core.CompactObj.Laws.{key_eq_refl, prime_key}
use shrikedb.Core.Contract.{find-remove}
use shrikedb.Facade.Reply.{Reply}
use shrikedb.Server.DbSlice.{DbTable, find, exists}
use shrikedb.Server.DbSlice.View.{Visible, view, live, value_of, deadline_of}
use shrikedb.Server.DbSlice.Consistent.{IsConsistent}
use shrikedb.Server.Context.{Context, M}
use shrikedb.Server.Context.Laws.{put, say, time}

-- A handler, run on the selected database `db`, sends one reply and leaves a consistent database
-- with the view `seen`.
pub record Answers (m : M (Unit {0})) (c : Context) (db : DbTable) (r : Reply)
    (seen : Bytes → Visible) : Type 0 where
  pub after : DbTable
  pub run : m (put db c) ≡ some (tt, say (r ∷ []) (put after c))
  pub sees : (j : Bytes) → view (time c) after j ≡ seen j
  pub consistent : IsConsistent after

abbrev pub deadline_seen : Visible → Option ℕ
deadline_seen none = none
deadline_seen (some (v, d)) = d

-- After a lookup, what the tables hold under the key is what is seen of it.
pub live-find :
    (key : Bytes) (v : PrimeValue) (t : ℕ) (db : DbTable)
    → IsConsistent db
    → live t (some v) (deadline_of (find key t db).0 key) ≡ some (v, deadline_seen (view t db key))
unfolding find view
live-find key v t db k = ground (
  arith,
  k.held (new_key key),
  find-remove (new_key key) (new_key key) db.expire,
  key_eq_refl (new_key key),
)

-- After a lookup that finds the key, the prime table holds its value.
pub value_of-find :
    (key : Bytes) (v : PrimeValue) (d : Option ℕ) (t : ℕ) (db : DbTable)
    → view t db key ≡ some (v, d)
    → value_of (find key t db).0 key ≡ some v
unfolding find view
value_of-find key v d t db h = ground arith

pub value_of-exists :
    (key : Bytes) (v : PrimeValue) (d : Option ℕ) (t : ℕ) (db : DbTable)
    → view t db key ≡ some (v, d)
    → value_of (exists key t db).0 key ≡ some v
unfolding exists
value_of-exists key v d t db h = value_of-find key v d t db h

view_same : (t : ℕ) (db : DbTable) (k j : Bytes) → bytes_eq k j ≡ true → view t db k ≡ view t db j
view_same t db k j h = ap (λ s. view t db s) (bytes_eq_sound k j h)

-- A view that hides a key that is not seen.
pub view-unseen :
    (t : ℕ) (db : DbTable) (key j : Bytes)
    → view t db key ≡ none
    → view t db j ≡ (if bytes_eq key j then none else view t db j)
view-unseen t db key j absent = elim (Bool-cases (bytes_eq key j)) [
  | inl same ↦ rw same (sym (view_same t db key j same) ∙ absent)
  | inr other ↦ rw other refl
]
