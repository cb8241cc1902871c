-- ===== src/Server/Commands/Sets/Combine.antt =====
-- SINTER, SUNION and SDIFF: their replies, and the members of the result.
use mathlib.Core.List.{foldl}
use shrikedb.Prelude.{
  ◌≡◌, refl, ap, ◌∙◌, Bool, true, false, arith, not, ◌&&◌, ◌||◌, Option, none, some, List, [], ◌∷◌,
  inl, inr,
}
use mathlib.Core.Path.{fun_ext}
use shrikedb.Std.Bytes.{Bytes}
use shrikedb.Std.HashSet.{HashSet, contains}
use shrikedb.Std.HashSet.Laws.{
  IsDistinct, contains-intersection, contains-union, contains-difference, intersection-IsDistinct,
  union-IsDistinct, difference-IsDistinct,
}
use shrikedb.Facade.Resp.{RespArgs}
use shrikedb.Facade.Reply.{wrong_type, string_array}
use shrikedb.Server.DbSlice.{DbTable, find}
use shrikedb.Server.DbSlice.View.{Visible, view}
use shrikedb.Server.DbSlice.Laws.{find_lem, view-find}
use shrikedb.Server.DbSlice.Consistent
use shrikedb.Server.DbSlice.Consistent.{IsConsistent}
use shrikedb.Server.Context.{Context, M, ◌>>=◌, tail, send_all}
use shrikedb.Server.Context.Laws.{put, time, Selected, on-put, strings, all_bytes-strings}
use shrikedb.Server.Commands.Typed.{Found, missing, other, held}
use shrikedb.Server.Commands.Typed.Laws.{Sends, Found-cases, seen_as}
use shrikedb.Server.Commands.Typed.Stored.{Sends-same}
use shrikedb.Server.Commands.Sets.Stored.{stored_set, stored_set-cases}
use shrikedb.Server.Commands.Sets.{
  as_set, SetOp, inter, union_op, diff, set_push, collect_sets, merge, result_replies, set_op,
  cmd_sinter, cmd_sunion, cmd_sdiff,
}

-- The sets that are seen under the keys, the empty one for a key that is not seen; `none` if a value
-- has another type.
abbrev found_set : Found HashSet → Option (List HashSet) → Option (List HashSet)
found_set other rest = none
found_set missing rest = set_push [] rest
found_set (held s) rest = set_push s rest

abbrev sets_seen : (Bytes → Visible) → List Bytes → Option (List HashSet)
sets_seen seen [] = some []
sets_seen seen (key ∷ keys) = found_set (seen_as as_set (seen key)) (sets_seen seen keys)

-- The run of `collect_sets` gives the sets and leaves what is seen.
record Collects (keys : List Bytes) (c : Context) (db : DbTable) : Type 0 where
  pub after : DbTable
  pub run : collect_sets keys (put db c) ≡ some (sets_seen (view (time c) db) keys, put after c)
  pub sees : (j : Bytes) → view (time c) after j ≡ view (time c) db j
  pub consistent : IsConsistent after

module _ (c : Context) (db0 : DbTable) (h : Selected c db0) where
  collect_sets-Collects : (keys : List Bytes) (db : DbTable) → IsConsistent db → Collects keys c db
  unfolding collect_sets
  collect_sets-Collects [] db k = record {
    after = db;
    run = refl;
    sees = λ j. refl;
    consistent = k;
  }
  collect_sets-Collects (key ∷ keys) db k =
      let t = time c in
      let next = (find key t db).0 in
      let rest = collect_sets-Collects keys next (Consistent.find-IsConsistent key t k) in
      let same : sets_seen (view t next) keys ≡ sets_seen (view t db) keys =
        ap (λ seen. sets_seen seen keys) (fun_ext (view-find key t db)) in
      elim (Found-cases (seen_as as_set (view t db key))) [
        | inr (inl wrong) ↦ record {
          after = next;
          run =
              rw
                (
                  collect_sets,
                  sets_seen,
                  ◌>>=◌,
                  on-put (find key) c db0 db h,
                  find_lem key t db,
                  wrong,
                )
                refl;
          sees = view-find key t db;
          consistent = Consistent.find-IsConsistent key t k;
        }
        | inl none_yet ↦ record {
          after = rest.after;
          run =
              rw
                (
                  collect_sets,
                  sets_seen,
                  ◌>>=◌,
                  on-put (find key) c db0 db h,
                  find_lem key t db,
                  none_yet,
                  rest.run,
                  same,
                )
                refl;
          sees = λ j. rest.sees j ∙ view-find key t db j;
          consistent = rest.consistent;
        }
        | inr (inr (s, there)) ↦ record {
          after = rest.after;
          run =
              rw
                (
                  collect_sets,
                  sets_seen,
                  ◌>>=◌,
                  on-put (find key) c db0 db h,
                  find_lem key t db,
                  there,
                  rest.run,
                  same,
                )
                refl;
          sees = λ j. rest.sees j ∙ view-find key t db j;
          consistent = rest.consistent;
        }
      ]

abbrev pub in_all : Bytes → List HashSet → Bool
in_all j [] = true
in_all j (s ∷ sets) = contains j s && in_all j sets

abbrev pub in_any : Bytes → List HashSet → Bool
in_any j [] = false
in_any j (s ∷ sets) = contains j s || in_any j sets

-- Whether a member is in the intersection, the union, or the first set without the others.
abbrev pub in_result : SetOp → Bytes → List HashSet → Bool
in_result op j [] = false
in_result inter j (s ∷ sets) = contains j s && in_all j sets
in_result union_op j (s ∷ sets) = contains j s || in_any j sets
in_result diff j (s ∷ sets) = contains j s && not (in_any j sets)

contains-foldl :
    (op : SetOp) (j : Bytes) (s : HashSet) (sets : List HashSet)
    → contains j (foldl (merge op) s sets) ≡ in_result op j (s ∷ sets)
contains-foldl inter j s [] = ground arith
contains-foldl union_op j s [] = ground arith
contains-foldl diff j s [] = ground arith
contains-foldl inter j s (t ∷ sets) =
    contains-foldl inter j (merge inter s t) sets ∙ ground (arith, contains-intersection s t j)
contains-foldl union_op j s (t ∷ sets) =
    contains-foldl union_op j (merge union_op s t) sets ∙ ground (arith, contains-union s t j)
contains-foldl diff j s (t ∷ sets) =
    contains-foldl diff j (merge diff s t) sets ∙ ground (arith, contains-difference s t j)

abbrev pub AllDistinct : List HashSet → Type 0
AllDistinct [] = Unit
AllDistinct (s ∷ sets) = IsDistinct s × AllDistinct sets

foldl-IsDistinct :
    (op : SetOp) (s : HashSet) (sets : List HashSet)
    → AllDistinct (s ∷ sets)
    → IsDistinct (foldl (merge op) s sets)
foldl-IsDistinct op s [] d = d.0
foldl-IsDistinct inter s (t ∷ sets) d =
    foldl-IsDistinct inter (merge inter s t) sets (intersection-IsDistinct s t d.0, d.1.1)
foldl-IsDistinct union_op s (t ∷ sets) d =
    foldl-IsDistinct union_op (merge union_op s t) sets (union-IsDistinct s t d.0 d.1.0, d.1.1)
foldl-IsDistinct diff s (t ∷ sets) d =
    foldl-IsDistinct diff (merge diff s t) sets (difference-IsDistinct s t d.0, d.1.1)

-- The sets that the keys hold, in their order; `none` if one holds a value of another type.
abbrev with_set : Option HashSet → Option (List HashSet) → Option (List HashSet)
with_set none sets = none
with_set (some s) none = none
with_set (some s) (some sets) = some (s ∷ sets)

abbrev pub stored_sets : (Bytes → Visible) → List Bytes → Option (List HashSet)
stored_sets seen [] = some []
stored_sets seen (key ∷ keys) = with_set (stored_set (seen key)) (stored_sets seen keys)

set_push_lem :
    (s : HashSet) (sets : Option (List HashSet)) → set_push s sets ≡ with_set (some s) sets
set_push_lem s none = refl
set_push_lem s (some sets) = refl

sets_seen_lem :
    (seen : Bytes → Visible) (keys : List Bytes) → sets_seen seen keys ≡ stored_sets seen keys
sets_seen_lem seen [] = refl
sets_seen_lem seen (key ∷ keys) = elim (stored_set-cases (seen key)) [
  | inl (gone, absent, empty) ↦
      rw (sets_seen, stored_sets, absent, empty, sets_seen_lem seen keys)
        (set_push_lem [] (stored_sets seen keys))
  | inr (inl (wrong, another)) ↦ rw (sets_seen, stored_sets, wrong, another) refl
  | inr (inr (s, there, found)) ↦
      rw (sets_seen, stored_sets, there, found, sets_seen_lem seen keys)
        (set_push_lem s (stored_sets seen keys))
]

module _ (c : Context) (db0 : DbTable) (h : Selected c db0) (k : IsConsistent db0) (args : RespArgs)
    (keys : List Bytes) (hk : tail args ≡ strings keys)
    (distinct : (sets : List HashSet)
      → stored_sets (view (time c) db0) keys ≡ some sets
      → AllDistinct sets) where
  set_op-shape :
      (op : SetOp)
      → Sends
          (set_op op args)
          c
          db0
          (result_replies op (stored_sets (view (time c) db0) keys))
          (view (time c) db0)
  unfolding set_op send_all
  set_op-shape op =
      let all = collect_sets-Collects c db0 h keys db0 k in
      record {
        after = all.after;
        run =
            rw
              (
                set_op,
                ◌>>=◌,
                hk,
                all_bytes-strings keys (put db0 c),
                all.run,
                sets_seen_lem (view (time c) db0) keys,
              )
              refl;
        sees = all.sees;
        consistent = all.consistent;
      }

  -- What a command answers where the keys hold the sets.
  abbrev pub Combines : SetOp → M (Unit {0}) → Option (List HashSet) → Type 0
  Combines op m none = Sends m c db0 (wrong_type [] ∷ []) (view (time c) db0)
  Combines op m (some sets) =
      (result : HashSet) × ((j : Bytes) → contains j result ≡ in_result op j sets)
      × IsDistinct result
      × Sends m c db0 (string_array result) (view (time c) db0)

  set_op-Combines :
      (op : SetOp) (sets : Option (List HashSet))
      → stored_sets (view (time c) db0) keys ≡ sets
      → Combines op (set_op op args) sets
  set_op-Combines op none e = Sends-same (set_op-shape op) (rw e refl) (λ j. refl)
  set_op-Combines op (some []) e =
      ([], λ j. unfold contains in refl, tt, Sends-same (set_op-shape op) (rw e refl) (λ j. refl))
  set_op-Combines op (some (s ∷ sets)) e = (
    foldl (merge op) s sets,
    λ j. contains-foldl op j s sets,
    foldl-IsDistinct op s sets (distinct (s ∷ sets) e),
    Sends-same (set_op-shape op) (rw e refl) (λ j. refl),
  )

  -- SINTER, SUNION and SDIFF with string arguments on a consistent database, whose sets under the
  -- keys, the empty one for a key that is not seen, have each member once: the reply is the array of
  -- the members that all the sets hold, that one of them holds, or that the first holds and no other,
  -- each once; if a key has a value of another type, it is an error. Nothing that is seen changes.
  pub set_op-Sends :
      Combines inter (cmd_sinter args) (stored_sets (view (time c) db0) keys)
      × Combines union_op (cmd_sunion args) (stored_sets (view (time c) db0) keys)
      × Combines diff (cmd_sdiff args) (stored_sets (view (time c) db0) keys)
  unfolding cmd_sinter cmd_sunion cmd_sdiff
  set_op-Sends =
      let sets = stored_sets (view (time c) db0) keys in
      (
        set_op-Combines inter sets refl,
        set_op-Combines union_op sets refl,
        set_op-Combines diff sets refl,
      )
