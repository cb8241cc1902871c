-- ===== src/Server/Commands/Strings/Set.antt =====
-- SET: its reply, its effect on the view of the database and the new deadline, for every
-- combination of options.
use shrikedb.Prelude.{
  ℕ, ◌≡◌, refl, sym, ◌∙◌, ◌⊎◌, Bool, true, false, ◌&&◌, not, Option, none, some, arith,
  if◌then◌else◌, Bool-cases, inl, inr, drop,
}
use shrikedb.Std.Bytes.{Bytes, bytes_eq}
use shrikedb.Core.CompactObj.{from_bytes}
use shrikedb.Facade.Resp.{RespArgs}
use shrikedb.Facade.Reply.{ok}
use shrikedb.Server.DbSlice.{DbTable, is_some, exists, add_or_update}
use shrikedb.Server.DbSlice.View.{Visible, view, live, deadline_of}
use shrikedb.Server.DbSlice.Laws.{exists_lem, view-exists}
use shrikedb.Server.DbSlice.Consistent
use shrikedb.Server.DbSlice.Consistent.{IsConsistent, deadline_of-exists}
use shrikedb.Server.Context.{Context, ◌>>=◌, ◌>>◌, send, arg_bytes}
use shrikedb.Server.Context.Answers.{Answers}
use shrikedb.Server.Context.Laws.{put, time, Selected, on-put, arg_lem}
use shrikedb.Server.Commands.Strings.{bulk_or_null}
use shrikedb.Server.Commands.Strings.Options.{
  SetOptions, no_options, Old, old, not_a_string, put_value, checked, store, set_with, set_options,
  parsed, cmd_set,
}
use shrikedb.Server.Commands.Strings.SetParts.{
  captured, kept, new_deadline, allowed, checked_reply, writes, set_reply, Fits, capture-Quiet,
  kept_deadline-Quiet, written, set_expiry-run, view-written, written-IsConsistent,
}

Old-cases : (x : Old) → ((v : Option Bytes) × x ≡ old v) ⊎ (x ≡ not_a_string)
Old-cases (old v) = inl (v, refl)
Old-cases not_a_string = inr refl

deadline_of-visible :
    (t : ℕ) (o : SetOptions) (db : DbTable) (key : Bytes)
    → (view t db key ≡ none → deadline_of db key ≡ none)
    → o.keep_ttl ≡ true
    → kept o (view t db key) ≡ none
    → deadline_of db key ≡ none
unfolding view
deadline_of-visible t o db key fresh asked lost = ground arith

module _ (c : Context) (db0 : DbTable) (h : Selected c db0) (key value : Bytes)
    (o : SetOptions) where
  -- What is seen after the value is written.
  abbrev stored_view : DbTable → Bytes → Visible
  stored_view db j =
      if bytes_eq key j
      then live (time c) (some (from_bytes value)) (new_deadline (time c) o (view (time c) db key))
      else view (time c) db j

  put_value-Answers :
      (ov : Option Bytes) (db : DbTable)
      → IsConsistent db
      → Fits (view (time c) db key)
      → (view (time c) db key ≡ none → deadline_of db key ≡ none)
      → Answers
          (put_value key value o ov (is_some (view (time c) db key)))
          c
          db
          (if o.get then bulk_or_null ov else ok)
          (stored_view db)
  unfolding put_value send
  put_value-Answers ov db k fits fresh =
      let before = view (time c) db key in
      let (q, kept_none) = kept_deadline-Quiet c db0 db h key o fits in
      let table = (add_or_update key (from_bytes value) (time c) q.after).0 in
      record {
        after = written key value (time c) o (kept o before) q.after;
        run =
            rw
              (
                put_value,
                ◌>>=◌,
                ◌>>◌,
                q.run,
                on-put (add_or_update key (from_bytes value)) c db0 q.after h,
                set_expiry-run c db0 table key o (kept o before) h,
              )
              refl;
        sees = λ j.
            rw
              (
                view-written key value (time c) o (kept o before) q.after j (λ asked lost.
                    kept_none (deadline_of-visible (time c) o db key fresh asked lost)),
                q.same j,
              )
              refl;
        consistent =
            written-IsConsistent key value (time c) o (kept o before) q.after (q.consistent k);
      }

  abbrev checked_view : Bool → DbTable → Bytes → Visible
  checked_view written_too db j = if written_too then stored_view db j else view (time c) db j

  checked-Answers :
      (ov : Option Bytes) (db : DbTable)
      → IsConsistent db
      → Fits (view (time c) db key)
      → (view (time c) db key ≡ none → deadline_of db key ≡ none)
      → Answers
          (checked key value o ov (is_some (view (time c) db key)))
          c
          db
          (checked_reply o ov (is_some (view (time c) db key)))
          (checked_view (allowed o (is_some (view (time c) db key))) db)
  unfolding checked send
  checked-Answers ov db k fits fresh =
      let present = is_some (view (time c) db key) in
      elim (Bool-cases (o.nx && present)) [
        | inl blocked ↦ record {
          after = db;
          run = rw (checked, blocked) refl;
          sees = λ j. rw blocked refl;
          consistent = k;
        }
        | inr free ↦ elim (Bool-cases (o.xx && not present)) [
          | inl blocked ↦ record {
            after = db;
            run = rw (checked, free, blocked) refl;
            sees = λ j. rw (free, blocked) refl;
            consistent = k;
          }
          | inr open_too ↦ rw (checked, free, open_too) (put_value-Answers ov db k fits fresh)
        ]
      ]

  store-Answers :
      (ov : Option Bytes) (db : DbTable)
      → IsConsistent db
      → Fits (view (time c) db key)
      → Answers
          (store key value o ov)
          c
          db
          (checked_reply o ov (is_some (view (time c) db key)))
          (checked_view (allowed o (is_some (view (time c) db key))) db)
  unfolding store
  store-Answers ov db k fits =
      let seen_before = view-exists key (time c) db key in
      let a =
        checked-Answers ov (exists key (time c) db).0
          (Consistent.exists-IsConsistent key (time c) k) (rw seen_before fits)
          (λ absent. deadline_of-exists key (time c) db k (sym seen_before ∙ absent)) in
      record {
        after = a.after;
        run =
            rw (store, ◌>>=◌, on-put (exists key) c db0 db h, exists_lem key (time c) db)
              (rw seen_before at a.run);
        sees = λ j. a.sees j ∙ (rw (seen_before, view-exists key (time c) db j) refl);
        consistent = a.consistent;
      }

  set_with-Answers :
      (db : DbTable)
      → (o.nx && o.xx) ≡ false
      → IsConsistent db
      → Fits (view (time c) db key)
      → Answers
          (set_with key value o)
          c
          db
          (set_reply o (view (time c) db key))
          (checked_view (writes o (view (time c) db key)) db)
  unfolding set_with send
  set_with-Answers db compatible k fits =
      let q = capture-Quiet c db0 db h key o in
      elim (Old-cases (captured o (view (time c) db key))) [
        | inl (v, text) ↦
            let a = store-Answers v q.after (q.consistent k) (rw (q.same key) fits) in
            record {
              after = a.after;
              run =
                  rw (set_with, compatible, set_reply, ◌>>=◌, q.run, text)
                    (rw (q.same key) at a.run);
              sees = λ j. a.sees j ∙ rw (q.same key, q.same j, writes, text) refl;
              consistent = a.consistent;
            }
        | inr refused ↦ record {
          after = q.after;
          run = rw (set_with, compatible, set_reply, ◌>>=◌, q.run, refused) refl;
          sees = λ j. q.same j ∙ rw (writes, refused) refl;
          consistent = q.consistent k;
        }
      ]

-- SET with options that parse to `o`, on a consistent database whose deadline of the key is a u64:
-- it answers the reply and leaves the view of the specification, for every combination of NX, XX,
-- GET, KEEPTTL and the four times but NX with XX. The value is written exactly if `writes` says so,
-- with the deadline `new_deadline`; no other key changes, and the database stays consistent.
pub cmd_set-Answers :
    (args : RespArgs) (c : Context) (db : DbTable) (key value : Bytes) (o : SetOptions)
    → Selected c db
    → arg_bytes args 1 ≡ some key
    → arg_bytes args 2 ≡ some value
    → set_options (drop 3 args) no_options ≡ parsed o
    → (o.nx && o.xx) ≡ false
    → IsConsistent db
    → Fits (view (time c) db key)
    → Answers (cmd_set args) c db (set_reply o (view (time c) db key)) (λ j.
      if writes o (view (time c) db key) && bytes_eq key j
      then live (time c) (some (from_bytes value)) (new_deadline (time c) o (view (time c) db key))
      else view (time c) db j)
unfolding cmd_set
cmd_set-Answers args c db key value o h hk hv ho compatible k fits =
    let a = set_with-Answers c db h key value o db compatible k fits in
    record {
      after = a.after;
      run =
          rw
            (
              cmd_set,
              ◌>>=◌,
              arg_lem args 1 key (put db c) hk,
              arg_lem args 2 value (put db c) hv,
              ho,
            )
            a.run;
      sees = λ j. a.sees j ∙ ground arith;
      consistent = a.consistent;
    }
