-- ===== src/Server/Commands/Generic/Exists.antt =====
-- What EXISTS answers.
use mathlib.Core.Path.{fun_ext}
use shrikedb.Prelude.{
  ℕ, ◌+◌, ◌≡◌, refl, ap, ◌∙◌, Bool, Bool-cases, inl, inr, some, List, [], ◌∷◌, if◌then◌else◌, arith,
}
use shrikedb.Prelude.Int.{pos}
use shrikedb.Std.Bytes.{Bytes}
use shrikedb.Facade.Resp.{RespArgs}
use shrikedb.Facade.Reply.{integer}
use shrikedb.Server.DbSlice.{DbTable, exists, is_some}
use shrikedb.Server.DbSlice.View.{view}
use shrikedb.Server.DbSlice.Laws.{exists_lem, view-exists}
use shrikedb.Server.DbSlice.Consistent
use shrikedb.Server.DbSlice.Consistent.{IsConsistent}
use shrikedb.Server.Context.{Context, ◌>>=◌, tail, send}
use shrikedb.Server.Context.Laws.{put, say, time, Selected, on-put, strings, all_bytes-strings}
use shrikedb.Server.Commands.Typed.Laws.{Sends}
use shrikedb.Server.Commands.Generic.{count_keys, cmd_exists}

-- How many of the keys are seen.
abbrev pub hits : (Bytes → Bool) → List Bytes → ℕ
hits p [] = 0
hits p (key ∷ keys) = let rest = hits p keys in if p key then 1 + rest else rest

-- The run of `count_keys` after the database has become `db`.
record Counts (keys : List Bytes) (n : ℕ) (c : Context) (db : DbTable) : Type 0 where
  pub after : DbTable
  pub run :
      count_keys exists keys n (put db c)
      ≡ some (n + hits (λ key. is_some (view (time c) db key)) keys, put after c)
  pub sees : (j : Bytes) → view (time c) after j ≡ view (time c) db j
  pub consistent : IsConsistent after

count_keys-Counts :
    (keys : List Bytes) (n : ℕ) (c : Context) (db0 db : DbTable)
    → Selected c db0
    → IsConsistent db
    → Counts keys n c db
unfolding count_keys
count_keys-Counts [] n c db0 db h k = record {
  after = db;
  run = ap (λ m. some (m, put db c)) (omega arith);
  sees = λ j. refl;
  consistent = k;
}
count_keys-Counts (key ∷ keys) n c db0 db h k =
    let t = time c in
    let next = (exists key t db).0 in
    let k' = Consistent.exists-IsConsistent key t k in
    let same : hits (λ j. is_some (view t next j)) keys ≡ hits (λ j. is_some (view t db j)) keys =
      ap (λ seen. hits (λ j. is_some (seen j)) keys) (fun_ext (view-exists key t db)) in
    elim (Bool-cases (is_some (view t db key))) [
      | inl hit ↦
          let rest = count_keys-Counts keys (n + 1) c db0 next h k' in
          record {
            after = rest.after;
            run =
                rw
                  (
                    count_keys,
                    ◌>>=◌,
                    on-put (exists key) c db0 db h,
                    exists_lem key t db,
                    hit,
                    rest.run,
                    same,
                  )
                  (ap (λ m. some (m, put rest.after c)) (omega arith));
            sees = λ j. rest.sees j ∙ view-exists key t db j;
            consistent = rest.consistent;
          }
      | inr miss ↦
          let rest = count_keys-Counts keys n c db0 next h k' in
          record {
            after = rest.after;
            run =
                rw
                  (
                    count_keys,
                    ◌>>=◌,
                    on-put (exists key) c db0 db h,
                    exists_lem key t db,
                    miss,
                    rest.run,
                    same,
                  )
                  refl;
            sees = λ j. rest.sees j ∙ view-exists key t db j;
            consistent = rest.consistent;
          }
    ]

-- EXISTS with string arguments on a consistent database: how many of the keys are seen, a key that
-- comes twice counted twice; nothing that is seen changes.
pub cmd_exists-Sends :
    (c : Context) (db : DbTable)
    → Selected c db
    → IsConsistent db
    → (args : RespArgs) (keys : List Bytes) → tail args ≡ strings keys
    → Sends
        (cmd_exists args)
        c
        db
        (integer (pos (hits (λ key. is_some (view (time c) db key)) keys)) ∷ [])
        (view (time c) db)
unfolding cmd_exists send
cmd_exists-Sends c db h k args keys hk =
    let all = count_keys-Counts keys 0 c db db h k in
    record {
      after = all.after;
      run =
          rw (cmd_exists, ◌>>=◌, hk, all_bytes-strings keys (put db c), all.run)
            (ap (λ n. some (tt, say (integer (pos n) ∷ []) (put all.after c))) (omega arith));
      sees = all.sees;
      consistent = all.consistent;
    }
