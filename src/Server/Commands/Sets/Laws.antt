-- ===== src/Server/Commands/Sets/Laws.antt =====
-- SADD and SREM: their replies, and the set that they leave.
use mathlib.Core.Path.{subst}
use shrikedb.Prelude.{
  sym, Option, none, inl, inr, ℕ, ◌≡◌, refl, some, List, [], ◌∷◌, if◌then◌else◌, drop,
}
use shrikedb.Std.Bytes.{Bytes, bytes_eq}
use shrikedb.Std.HashSet.{HashSet, contains}
use shrikedb.Std.HashSet.Laws.{IsDistinct}
use shrikedb.Prelude.Int.{pos}
use shrikedb.Core.CompactObj.{set}
use shrikedb.Facade.Resp.{RespArgs}
use shrikedb.Facade.Reply.{integer, wrong_type}
use shrikedb.Server.DbSlice.{DbTable}
use shrikedb.Server.DbSlice.View.{view}
use shrikedb.Server.DbSlice.Consistent.{IsConsistent}
use shrikedb.Server.Context.{Context, ◌>>=◌, arg_bytes}
use shrikedb.Server.Context.Laws.{put, time, Selected, arg_lem, strings, all_bytes-strings}
use shrikedb.Server.Commands.Typed.Laws.{
  Sends, update-Sends, shrink-Sends, update_replies, update_view, query_replies, shrink_view,
}
use shrikedb.Server.Context.Answers.{deadline_seen}
use shrikedb.Server.Commands.Typed.Stored.{replaced, replaced-none, Sends-same}
use shrikedb.Server.Commands.Sets.Loops.{Adds, Removes, insert_all-Adds, remove_all-Removes}
use shrikedb.Server.Commands.Sets.Stored.{stored_set, kept_set, stored_set-cases}
use shrikedb.Server.Commands.Sets.{
  as_set, is_empty, insert_all, remove_all, add_members, drop_members, count_reply, cmd_sadd,
  cmd_srem,
}

module _ (c : Context) (db0 : DbTable) (h : Selected c db0) (key : Bytes) (k : IsConsistent db0)
    (args : RespArgs) (ms : List Bytes) (hk : arg_bytes args 1 ≡ some key)
    (hm : drop 2 args ≡ strings ms)
    (distinct : (s : HashSet) → stored_set (view (time c) db0 key) ≡ some s → IsDistinct s) where
  sadd_shape :
      Sends
        (cmd_sadd args)
        c
        db0
        (update_replies as_set [] (add_members ms) (view (time c) db0 key))
        (update_view as_set set [] (add_members ms) key (time c) db0)
  unfolding cmd_sadd
  sadd_shape =
      let shape = update-Sends as_set c db0 h key k set [] (add_members ms) in
      record {
        after = shape.after;
        run =
            rw
              (
                cmd_sadd,
                ◌>>=◌,
                arg_lem args 1 key (put db0 c) hk,
                hm,
                all_bytes-strings ms (put db0 c),
              )
              shape.run;
        sees = shape.sees;
        consistent = shape.consistent;
      }

  -- What SADD does where the key holds `old`.
  abbrev pub SaddResult : Option HashSet → Type 0
  SaddResult none = Sends (cmd_sadd args) c db0 (wrong_type [] ∷ []) (view (time c) db0)
  SaddResult (some old) =
      (r : HashSet × ℕ) × Adds ms old r
      × Sends (cmd_sadd args) c db0 (integer (pos r.1) ∷ [])
          (replaced key (some (set r.0)) (time c) db0)

  -- SADD with string arguments on a consistent database. Let `old` be the set that is seen, or the
  -- empty set. The key gets, with its old deadline, a set of the members of `old` and the given ones,
  -- each once; the reply is by how many members it is larger than `old`. A value of another type gets
  -- an error and stays. No other key changes. The set that is seen has each member once.
  pub cmd_sadd-Sends : SaddResult (stored_set (view (time c) db0 key))
  cmd_sadd-Sends = elim (stored_set-cases (view (time c) db0 key)) [
    | inl (gone, absent, empty) ↦ subst SaddResult (sym empty) (
      insert_all ms ([], 0),
      insert_all-Adds ms [] tt,
      Sends-same sadd_shape (rw (update_replies, absent) refl) (λ j. rw (update_view, absent) refl),
    )
    | inr (inl (wrong, another)) ↦ subst SaddResult (sym another) (
        Sends-same sadd_shape (rw (update_replies, wrong) refl) (λ j. rw (update_view, wrong) refl))
    | inr (inr (old, there, found)) ↦ subst SaddResult (sym found) (
      insert_all ms (old, 0),
      insert_all-Adds ms old (distinct old found),
      Sends-same sadd_shape (rw (update_replies, there) refl) (λ j. rw (update_view, there) refl),
    )
  ]

  srem_shape :
      Sends
        (cmd_srem args)
        c
        db0
        (query_replies as_set (count_reply 0) (λ s. (drop_members ms s).2) (view (time c) db0 key))
        (shrink_view as_set set (drop_members ms) key (time c) db0)
  unfolding cmd_srem
  srem_shape =
      let shape = shrink-Sends as_set c db0 h key k set (count_reply 0) (drop_members ms) in
      record {
        after = shape.after;
        run =
            rw
              (
                cmd_srem,
                ◌>>=◌,
                arg_lem args 1 key (put db0 c) hk,
                hm,
                all_bytes-strings ms (put db0 c),
              )
              shape.run;
        sees = shape.sees;
        consistent = shape.consistent;
      }

  -- What SREM does where the key holds `old`.
  abbrev pub SremResult : Option HashSet → Type 0
  SremResult none = Sends (cmd_srem args) c db0 (wrong_type [] ∷ []) (view (time c) db0)
  SremResult (some old) =
      (r : HashSet × ℕ) × Removes ms old r
      × Sends (cmd_srem args) c db0 (integer (pos r.1) ∷ [])
          (replaced key (kept_set r.0) (time c) db0)

  kept_lem :
      (s : HashSet) (j : Bytes)
      → (if bytes_eq key j
          then (if is_empty s then none else some (set s, deadline_seen (view (time c) db0 key)))
          else view (time c) db0 j)
        ≡ replaced key (kept_set s) (time c) db0 j
  kept_lem [] j = refl
  kept_lem (m ∷ s) j = refl

  -- SREM with string arguments on a consistent database. Let `old` be the set that is seen, or the
  -- empty set. The key gets, with its old deadline, a set of the members of `old` but the given ones,
  -- each once, and is removed if none is left; the reply is by how many members that set is smaller
  -- than `old`. A value of another type gets an error and stays. No other key changes. The set that
  -- is seen has each member once.
  pub cmd_srem-Sends : SremResult (stored_set (view (time c) db0 key))
  cmd_srem-Sends = elim (stored_set-cases (view (time c) db0 key)) [
    | inl (gone, absent, empty) ↦ subst SremResult (sym empty) (
      ([], 0),
      record { left = λ j. unfold contains in refl; distinct = tt; counted = refl },
      Sends-same srem_shape (rw (query_replies, absent) refl)
          (λ j. rw (shrink_view, absent) (replaced-none key (time c) db0 gone j)),
    )
    | inr (inl (wrong, another)) ↦
        subst SremResult (sym another) (
          Sends-same srem_shape (rw (query_replies, wrong) refl)
            (λ j. rw (shrink_view, wrong) refl))
    | inr (inr (old, there, found)) ↦ subst SremResult (sym found) (
      remove_all ms (old, 0),
      remove_all-Removes ms old (distinct old found),
      Sends-same srem_shape (rw (query_replies, there) refl)
          (λ j. rw (shrink_view, there) (kept_lem (remove_all ms (old, 0)).0 j)),
    )
  ]
