-- ===== src/Server/Commands/Hashes/Laws.antt =====
-- HSET and HDEL: their replies, and the map that they leave.
use mathlib.Core.Path.{subst}
use shrikedb.Prelude.{
  ℕ, ◌-◌, ◌≡◌, refl, sym, ap, ◌∙◌, true, Option, none, some, List, [], ◌∷◌, arith, if◌then◌else◌,
  length, length-drop, drop, inl, inr,
}
use shrikedb.Prelude.Int.{pos}
use shrikedb.Std.Bytes.{Bytes, bytes_eq}
use shrikedb.Core.Key.{bytes_key}
use shrikedb.Core.Contract
use shrikedb.Core.Contract.{Unique}
use shrikedb.Core.CompactObj.{hash}
use shrikedb.Facade.Resp.{RespArgs}
use shrikedb.Facade.Reply.{integer, wrong_type}
use shrikedb.Server.DbSlice.{DbTable}
use shrikedb.Server.DbSlice.View.{view}
use shrikedb.Server.DbSlice.Consistent.{IsConsistent}
use shrikedb.Server.Context.{Context, ◌>>=◌, arg_bytes}
use shrikedb.Server.Context.Answers.{deadline_seen}
use shrikedb.Server.Context.Laws.{put, time, Selected, arg_lem, strings, all_bytes-strings}
use shrikedb.Server.Commands.Strings.{pairs, even}
use shrikedb.Server.Commands.Typed.Laws.{
  Sends, update-Sends, shrink-Sends, update_replies, update_view, query_replies, shrink_view,
}
use shrikedb.Server.Commands.Typed.Stored.{replaced, replaced-none, Sends-same}
use shrikedb.Server.Commands.Hashes.{
  HashMap, as_hash, is_empty, insert_fields, remove_fields, set_fields, drop_fields, count_reply,
  set_command, cmd_hset, cmd_hdel,
}
use shrikedb.Server.Commands.Hashes.Stored.{stored_hash, kept_hash, stored_hash-cases}
use shrikedb.Server.Commands.Hashes.Fields.{
  Sets, Drops, without, insert_fields-Sets, remove_fields-Drops,
}

-- The fields and their values, one after the other, as HSET has them.
abbrev pub in_turn : List (Bytes × Bytes) → List Bytes
in_turn [] = []
in_turn ((f, v) ∷ rest) = f ∷ v ∷ in_turn rest

pairs-in_turn : (fields : List (Bytes × Bytes)) → pairs (in_turn fields) ≡ fields
pairs-in_turn [] = refl
pairs-in_turn ((f, v) ∷ rest) = ap (λ l. (f, v) ∷ l) (pairs-in_turn rest)

even-in_turn : (fields : List (Bytes × Bytes)) → even (length (strings (in_turn fields))) ≡ true
even-in_turn [] = refl
even-in_turn ((f, v) ∷ rest) = rw (even-in_turn rest) refl

without-none : (j : Bytes) (fs : List Bytes) → without j fs none ≡ none
without-none j [] = refl
without-none j (f ∷ fs) = ground (arith, without-none j fs)

module _ (c : Context) (db0 : DbTable) (h : Selected c db0) (key : Bytes) (k : IsConsistent db0)
    (args : RespArgs) (hk : arg_bytes args 1 ≡ some key)
    (distinct : (m : HashMap) → stored_hash (view (time c) db0 key) ≡ some m → Unique m) where
  module _ (fields : List (Bytes × Bytes)) (hw : drop 2 args ≡ strings (in_turn fields)) where
    paired : even (length args - 2) ≡ true
    paired = ap even (sym (length-drop 2 args) ∙ ap length hw) ∙ even-in_turn fields

    abbrev HsetShape : List (Bytes × Bytes) → Type 0
    HsetShape given =
        Sends (cmd_hset args) c db0
          (update_replies as_hash [] (set_fields given) (view (time c) db0 key))
          (update_view as_hash hash [] (set_fields given) key (time c) db0)

    hset_shape : HsetShape fields
    unfolding cmd_hset
    hset_shape =
        let words = in_turn fields in
        let shape = update-Sends as_hash c db0 h key k hash [] (set_fields (pairs words)) in
        subst HsetShape (pairs-in_turn fields) (record {
          after = shape.after;
          run =
              rw
                (
                  cmd_hset,
                  set_command,
                  ◌>>=◌,
                  arg_lem args 1 key (put db0 c) hk,
                  paired,
                  hw,
                  all_bytes-strings words (put db0 c),
                )
                shape.run;
          sees = shape.sees;
          consistent = shape.consistent;
        })

    -- What HSET does where the key holds `old`.
    abbrev pub HsetResult : Option HashMap → Type 0
    HsetResult none = Sends (cmd_hset args) c db0 (wrong_type [] ∷ []) (view (time c) db0)
    HsetResult (some old) =
        (r : HashMap × ℕ) × Sets fields old r
        × Sends (cmd_hset args) c db0 (integer (pos r.1) ∷ [])
            (replaced key (some (hash r.0)) (time c) db0)

    -- HSET with string arguments, fields and values in turn, on a consistent database. Let `old` be
    -- the map that is seen, or the empty map. The key gets, with its old deadline, a map with the last
    -- value given for each field, else the one in `old`, each field once; the reply is by how many
    -- fields it is larger than `old`. A value of another type gets an error and stays. No other key
    -- changes. The map that is seen has each field once.
    pub cmd_hset-Sends : HsetResult (stored_hash (view (time c) db0 key))
    cmd_hset-Sends = elim (stored_hash-cases (view (time c) db0 key)) [
      | inl (gone, absent, empty) ↦ subst HsetResult (sym empty) (
        insert_fields fields ([], 0),
        insert_fields-Sets fields [] tt,
        Sends-same hset_shape (rw (update_replies, absent) refl)
            (λ j. rw (update_view, absent) refl),
      )
      | inr (inl (wrong, another)) ↦ subst HsetResult (sym another) (
          Sends-same hset_shape (rw (update_replies, wrong) refl)
            (λ j. rw (update_view, wrong) refl))
      | inr (inr (old, there, found)) ↦ subst HsetResult (sym found) (
        insert_fields fields (old, 0),
        insert_fields-Sets fields old (distinct old found),
        Sends-same hset_shape (rw (update_replies, there) refl) (λ j. rw (update_view, there) refl),
      )
    ]

  module _ (fs : List Bytes) (hf : drop 2 args ≡ strings fs) where
    hdel_shape :
        Sends
          (cmd_hdel args)
          c
          db0
          (query_replies as_hash
            (count_reply 0)
            (λ m. (drop_fields fs m).2)
            (view (time c) db0 key))
          (shrink_view as_hash hash (drop_fields fs) key (time c) db0)
    unfolding cmd_hdel
    hdel_shape =
        let shape = shrink-Sends as_hash c db0 h key k hash (count_reply 0) (drop_fields fs) in
        record {
          after = shape.after;
          run =
              rw
                (
                  cmd_hdel,
                  ◌>>=◌,
                  arg_lem args 1 key (put db0 c) hk,
                  hf,
                  all_bytes-strings fs (put db0 c),
                )
                shape.run;
          sees = shape.sees;
          consistent = shape.consistent;
        }

    -- What HDEL does where the key holds `old`.
    abbrev pub HdelResult : Option HashMap → Type 0
    HdelResult none = Sends (cmd_hdel args) c db0 (wrong_type [] ∷ []) (view (time c) db0)
    HdelResult (some old) =
        (r : HashMap × ℕ) × Drops fs old r
        × Sends (cmd_hdel args) c db0 (integer (pos r.1) ∷ [])
            (replaced key (kept_hash r.0) (time c) db0)

    kept_lem :
        (m : HashMap) (j : Bytes)
        → (if bytes_eq key j
            then (if is_empty m then none else some (hash m, deadline_seen (view (time c) db0 key)))
            else view (time c) db0 j)
          ≡ replaced key (kept_hash m) (time c) db0 j
    kept_lem [] j = refl
    kept_lem (e ∷ m) j = refl

    -- HDEL with string arguments on a consistent database. Let `old` be the map that is seen, or the
    -- empty map. The key gets, with its old deadline, `old` without the fields, each field once, and
    -- is removed if none is left; the reply is by how many fields that map is smaller than `old`. A
    -- value of another type gets an error and stays. No other key changes. The map that is seen has
    -- each field once.
    pub cmd_hdel-Sends : HdelResult (stored_hash (view (time c) db0 key))
    cmd_hdel-Sends = elim (stored_hash-cases (view (time c) db0 key)) [
      | inl (gone, absent, empty) ↦ subst HdelResult (sym empty) (
        ([], 0),
        record {
          values = λ j. unfold Contract.find in sym (without-none j fs);
          distinct = tt;
          counted = refl;
        },
        Sends-same hdel_shape (rw (query_replies, absent) refl)
            (λ j. rw (shrink_view, absent) (replaced-none key (time c) db0 gone j)),
      )
      | inr (inl (wrong, another)) ↦ subst HdelResult (sym another) (
          Sends-same hdel_shape (rw (query_replies, wrong) refl)
            (λ j. rw (shrink_view, wrong) refl))
      | inr (inr (old, there, found)) ↦ subst HdelResult (sym found) (
        remove_fields fs (old, 0),
        remove_fields-Drops fs old (distinct old found),
        Sends-same hdel_shape (rw (query_replies, there) refl)
            (λ j. rw (shrink_view, there) (kept_lem (remove_fields fs (old, 0)).0 j)),
      )
    ]
