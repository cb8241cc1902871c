-- ===== src/Server/Commands/Strings/MultiGet.antt =====
-- What MGET answers.
use mathlib.Core.Path.{fun_ext}
use mathlib.Core.List.{append_assoc, append-nil}
use shrikedb.Prelude.{
  ◌≡◌, refl, ap, ◌∙◌, sym, Bool-cases, inl, inr, Option, none, some, List, [], ◌∷◌, map, length,
  if◌then◌else◌,
}
use shrikedb.Std.Bytes.{Bytes}
use shrikedb.Core.CompactObj.{is_string, as_bytes}
use shrikedb.Facade.Resp.{RespArgs}
use shrikedb.Facade.Reply.{value_reply, array_len}
use shrikedb.Server.DbSlice.{DbTable, find}
use shrikedb.Server.DbSlice.View.{Visible, view, found}
use shrikedb.Server.DbSlice.Laws.{find_lem, view-find}
use shrikedb.Server.DbSlice.Consistent
use shrikedb.Server.DbSlice.Consistent.{IsConsistent}
use shrikedb.Server.Context.{Context, ◌>>=◌, tail, send}
use shrikedb.Server.Context.Laws.{put, say, time, Selected, on-put, strings, all_bytes-strings}
use shrikedb.Server.Commands.Typed.Laws.{Sends}
use shrikedb.Server.Commands.Strings.{mget_all, mget_reply, cmd_mget}

-- The bytes of a string that is seen.
abbrev pub bytes_seen : Visible → Option Bytes
bytes_seen none = none
bytes_seen (some (v, d)) = if is_string v then some (as_bytes v) else none

abbrev pub values_seen : (Bytes → Visible) → List Bytes → List (Option Bytes)
values_seen seen keys = map (λ key. bytes_seen (seen key)) keys

mget_reply_lem :
    (x : Visible) (c : Context)
    → mget_reply (found x) c ≡ some (tt, say (value_reply (bytes_seen x) ∷ []) c)
unfolding send
mget_reply_lem none c = refl
mget_reply_lem (some (v, d)) c = elim (Bool-cases (is_string v)) [
  | inl e ↦ rw e refl
  | inr e ↦ rw e refl
]

-- The run of `mget_all` after the database has become `db`.
record Gets (keys : List Bytes) (c : Context) (db : DbTable) : Type 0 where
  pub after : DbTable
  pub run :
      mget_all keys (put db c)
      ≡ some (tt, say (map value_reply (values_seen (view (time c) db) keys)) (put after c))
  pub sees : (j : Bytes) → view (time c) after j ≡ view (time c) db j
  pub consistent : IsConsistent after

mget_all-Gets :
    (keys : List Bytes) (c : Context) (db0 db : DbTable)
    → Selected c db0
    → IsConsistent db
    → Gets keys c db
unfolding mget_all
mget_all-Gets [] c db0 db h k = record {
  after = db;
  run = sym (ap (λ rs. some (tt, record (put db c) { reply = rs })) (append-nil c.reply));
  sees = λ j. refl;
  consistent = k;
}
mget_all-Gets (key ∷ keys) c db0 db h k =
    let t = time c in
    let next = (find key t db).0 in
    let r = value_reply (bytes_seen (view t db key)) in
    let rest =
      mget_all-Gets keys (say (r ∷ []) c) db0 next h (Consistent.find-IsConsistent key t k) in
    let same : values_seen (view t next) keys ≡ values_seen (view t db) keys =
      ap (λ seen. values_seen seen keys) (fun_ext (view-find key t db)) in
    record {
      after = rest.after;
      run =
          rw
            (
              mget_all,
              ◌>>=◌,
              on-put (find key) c db0 db h,
              find_lem key t db,
              mget_reply_lem (view t db key) (put next c),
              rest.run,
              same,
              append_assoc c.reply (r ∷ []) (map value_reply (values_seen (view t db) keys)),
            )
            refl;
      sees = λ j. rest.sees j ∙ view-find key t db j;
      consistent = rest.consistent;
    }

-- MGET with string arguments on a consistent database: the number of keys, and for each key the
-- string that is seen, or null; nothing that is seen changes.
pub cmd_mget-Sends :
    (c : Context) (db : DbTable)
    → Selected c db
    → IsConsistent db
    → (args : RespArgs) (keys : List Bytes) → tail args ≡ strings keys
    → Sends
        (cmd_mget args)
        c
        db
        (array_len (length keys) ∷ map value_reply (values_seen (view (time c) db) keys))
        (view (time c) db)
unfolding cmd_mget send
cmd_mget-Sends c db h k args keys hk =
    let first = array_len (length keys) in
    let all = mget_all-Gets keys (say (first ∷ []) c) db db h k in
    record {
      after = all.after;
      run =
          rw
            (
              cmd_mget,
              ◌>>=◌,
              hk,
              all_bytes-strings keys (put db c),
              all.run,
              append_assoc c.reply (first ∷ [])
                  (map value_reply (values_seen (view (time c) db) keys)),
            )
            refl;
      sees = all.sees;
      consistent = all.consistent;
    }
