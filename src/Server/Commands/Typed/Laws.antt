-- ===== src/Server/Commands/Typed/Laws.antt =====
-- What the three shapes of handlers answer and leave.
use shrikedb.Prelude.{
  ℕ, ◌≡◌, refl, ◌⊎◌, Bool, Option, none, some, arith, List, [], ◌∷◌, if◌then◌else◌, Bool-cases, inl,
  inr,
}
use shrikedb.Std.Bytes.{Bytes, bytes_eq}
use shrikedb.Core.CompactObj.{PrimeValue}
use shrikedb.Facade.Reply.{Reply, wrong_type}
use shrikedb.Server.DbSlice.{DbTable, find, add_or_update, write_back, del}
use shrikedb.Server.DbSlice.View.{Visible, view, found}
use shrikedb.Server.DbSlice.Laws.{
  find_lem, view-find, view-add_or_update, view-write_back, view-del,
}
use shrikedb.Server.DbSlice.Consistent
use shrikedb.Server.DbSlice.Consistent.{IsConsistent}
use shrikedb.Server.Context.{Context, M, ◌>>=◌, ◌>>◌, send, send_all}
use shrikedb.Server.Context.Answers.{deadline_seen, live-find}
use shrikedb.Server.Context.Laws.{put, say, time, Selected, on-put}
use shrikedb.Server.Commands.Typed.{
  Found, missing, other, held, found_as, query, update, delete_if, shrink,
}

-- A handler, run on the selected database `db`, sends the replies and leaves a consistent database
-- with the view `seen`.
pub record Sends (m : M (Unit {0})) (c : Context) (db : DbTable) (rs : List Reply)
    (seen : Bytes → Visible) : Type 0 where
  pub after : DbTable
  pub run : m (put db c) ≡ some (tt, say rs (put after c))
  pub sees : (j : Bytes) → view (time c) after j ≡ seen j
  pub consistent : IsConsistent after

pub Found-cases :
    {A : Type 0} (x : Found A) → (x ≡ missing) ⊎ ((x ≡ other) ⊎ ((a : A) × x ≡ held a))
Found-cases missing = inl refl
Found-cases other = inr (inl refl)
Found-cases (held a) = inr (inr (a, refl))

module _ {A : Type 0} (pick : PrimeValue → Option A) where
  -- What is seen of the key, as a value of the type.
  abbrev pub seen_as : Visible → Found A
  seen_as x = found_as pick (found x)

  abbrev pub query_replies : List Reply → (A → List Reply) → Visible → List Reply
  query_replies default f x = elim (seen_as x) [
    | missing ↦ default
    | other ↦ wrong_type [] ∷ []
    | held a ↦ f a
  ]

  abbrev pub update_replies : A → (A → A × List Reply) → Visible → List Reply
  update_replies new f x = elim (seen_as x) [
    | missing ↦ (f new).1
    | other ↦ wrong_type [] ∷ []
    | held a ↦ (f a).1
  ]

  abbrev pub update_view :
      (A → PrimeValue) → A → (A → A × List Reply) → Bytes → ℕ → DbTable → Bytes → Visible
  update_view make new f key t db j = elim (seen_as (view t db key)) [
    | missing ↦
        if bytes_eq key j then some (make (f new).0, deadline_seen (view t db key)) else view t db j
    | other ↦ view t db j
    | held a ↦
        if bytes_eq key j then some (make (f a).0, deadline_seen (view t db key)) else view t db j
  ]

  abbrev pub shrink_view :
      (A → PrimeValue) → (A → A × Bool × List Reply) → Bytes → ℕ → DbTable → Bytes → Visible
  shrink_view make f key t db j = elim (seen_as (view t db key)) [
    | missing ↦ view t db j
    | other ↦ view t db j
    | held a ↦
        if bytes_eq key j
        then (if (f a).1 then none else some (make (f a).0, deadline_seen (view t db key)))
        else view t db j
  ]

module _ {A : Type 0} (pick : PrimeValue → Option A) (c : Context) (db0 : DbTable)
    (h : Selected c db0) (key : Bytes) (k : IsConsistent db0) where
  abbrev looked_up : DbTable
  looked_up = (find key (time c) db0).0

  looked_up-IsConsistent : IsConsistent looked_up
  looked_up-IsConsistent = Consistent.find-IsConsistent key (time c) k

  pub query-Sends :
      (default : List Reply) (f : A → List Reply)
      → Sends
          (query pick default f key)
          c
          db0
          (query_replies pick default f (view (time c) db0 key))
          (view (time c) db0)
  unfolding query send send_all
  query-Sends default f =
      let t = time c in
      elim (Found-cases (seen_as pick (view t db0 key))) [
        | inl none_yet ↦ record {
          after = looked_up;
          run =
              rw
                (
                  query,
                  query_replies,
                  ◌>>=◌,
                  on-put (find key) c db0 db0 h,
                  find_lem key t db0,
                  none_yet,
                )
                refl;
          sees = view-find key t db0;
          consistent = looked_up-IsConsistent;
        }
        | inr (inl wrong) ↦ record {
          after = looked_up;
          run =
              rw
                (
                  query,
                  query_replies,
                  ◌>>=◌,
                  on-put (find key) c db0 db0 h,
                  find_lem key t db0,
                  wrong,
                )
                refl;
          sees = view-find key t db0;
          consistent = looked_up-IsConsistent;
        }
        | inr (inr (a, there)) ↦ record {
          after = looked_up;
          run =
              rw
                (
                  query,
                  query_replies,
                  ◌>>=◌,
                  on-put (find key) c db0 db0 h,
                  find_lem key t db0,
                  there,
                )
                refl;
          sees = view-find key t db0;
          consistent = looked_up-IsConsistent;
        }
      ]

  module _ (make : A → PrimeValue) where
    added : A → DbTable
    added a = (add_or_update key (make a) (time c) looked_up).0

    written : A → DbTable
    written a = (write_back key (make a) (time c) looked_up).0

    view-added :
        (a : A) (j : Bytes)
        → view (time c) (added a) j ≡ (
            if bytes_eq key j
            then some (make a, deadline_seen (view (time c) db0 key))
            else view (time c) db0 j)
    unfolding added
    view-added a j =
        rw
          (
            view-add_or_update key (time c) looked_up (make a) j,
            live-find key (make a) (time c) db0 k,
            view-find key (time c) db0 j,
          )
          refl

    view-written :
        (a : A) (j : Bytes)
        → view (time c) (written a) j ≡ (
            if bytes_eq key j
            then some (make a, deadline_seen (view (time c) db0 key))
            else view (time c) db0 j)
    unfolding written
    view-written a j =
        rw
          (
            view-write_back key (time c) looked_up (make a) j,
            live-find key (make a) (time c) db0 k,
            view-find key (time c) db0 j,
          )
          refl

    written-IsConsistent : (a : A) → IsConsistent (written a)
    unfolding written
    written-IsConsistent a =
        Consistent.write_back-IsConsistent key (time c) looked_up-IsConsistent (make a)

    pub update-Sends :
        (new : A) (f : A → A × List Reply)
        → Sends
            (update pick make new f key)
            c
            db0
            (update_replies pick new f (view (time c) db0 key))
            (update_view pick make new f key (time c) db0)
    unfolding update send send_all added written
    update-Sends new f =
        let t = time c in
        elim (Found-cases (seen_as pick (view t db0 key))) [
          | inl none_yet ↦ record {
            after = added (f new).0;
            run =
                rw
                  (
                    update,
                    update_replies,
                    ◌>>=◌,
                    ◌>>◌,
                    on-put (find key) c db0 db0 h,
                    find_lem key t db0,
                    none_yet,
                    on-put (add_or_update key (make (f new).0)) c db0 looked_up h,
                  )
                  refl;
            sees = λ j. rw (update_view, none_yet) (view-added (f new).0 j);
            consistent =
                Consistent.add_or_update-IsConsistent key t looked_up-IsConsistent (make (f new).0);
          }
          | inr (inl wrong) ↦ record {
            after = looked_up;
            run =
                rw
                  (
                    update,
                    update_replies,
                    ◌>>=◌,
                    on-put (find key) c db0 db0 h,
                    find_lem key t db0,
                    wrong,
                  )
                  refl;
            sees = λ j. rw (update_view, wrong) (view-find key t db0 j);
            consistent = looked_up-IsConsistent;
          }
          | inr (inr (a, there)) ↦ record {
            after = written (f a).0;
            run =
                rw
                  (
                    update,
                    update_replies,
                    ◌>>=◌,
                    ◌>>◌,
                    on-put (find key) c db0 db0 h,
                    find_lem key t db0,
                    there,
                    on-put (write_back key (make (f a).0)) c db0 looked_up h,
                  )
                  refl;
            sees = λ j. rw (update_view, there) (view-written (f a).0 j);
            consistent = written-IsConsistent (f a).0;
          }
        ]

    emptied : A → DbTable
    emptied a = (del key (time c) (written a)).0

    view-emptied :
        (a : A) (j : Bytes)
        → view (time c) (emptied a) j ≡ (if bytes_eq key j then none else view (time c) db0 j)
    unfolding emptied
    view-emptied a j = rw (view-del key (time c) (written a) j, view-written a j) (ground arith)

    pub shrink-Sends :
        (default : List Reply) (f : A → A × Bool × List Reply)
        → Sends
            (shrink pick make default f key)
            c
            db0
            (query_replies pick default (λ a. (f a).2) (view (time c) db0 key))
            (shrink_view pick make f key (time c) db0)
    unfolding shrink send send_all emptied written
    shrink-Sends default f =
        let t = time c in
        elim (Found-cases (seen_as pick (view t db0 key))) [
          | inl none_yet ↦ record {
            after = looked_up;
            run =
                rw
                  (
                    shrink,
                    query_replies,
                    ◌>>=◌,
                    on-put (find key) c db0 db0 h,
                    find_lem key t db0,
                    none_yet,
                  )
                  refl;
            sees = λ j. rw (shrink_view, none_yet) (view-find key t db0 j);
            consistent = looked_up-IsConsistent;
          }
          | inr (inl wrong) ↦ record {
            after = looked_up;
            run =
                rw
                  (
                    shrink,
                    query_replies,
                    ◌>>=◌,
                    on-put (find key) c db0 db0 h,
                    find_lem key t db0,
                    wrong,
                  )
                  refl;
            sees = λ j. rw (shrink_view, wrong) (view-find key t db0 j);
            consistent = looked_up-IsConsistent;
          }
          | inr (inr (a, there)) ↦ elim (Bool-cases (f a).1) [
            | inl none_left ↦ record {
              after = emptied (f a).0;
              run =
                  rw
                    (
                      shrink,
                      query_replies,
                      ◌>>=◌,
                      ◌>>◌,
                      on-put (find key) c db0 db0 h,
                      find_lem key t db0,
                      there,
                      on-put (write_back key (make (f a).0)) c db0 looked_up h,
                      none_left,
                      delete_if,
                      on-put (del key) c db0 (written (f a).0) h,
                    )
                    refl;
              sees = λ j. rw (shrink_view, there, none_left) (view-emptied (f a).0 j);
              consistent = Consistent.del-IsConsistent key t (written-IsConsistent (f a).0);
            }
            | inr some_left ↦ record {
              after = written (f a).0;
              run =
                  rw
                    (
                      shrink,
                      query_replies,
                      ◌>>=◌,
                      ◌>>◌,
                      on-put (find key) c db0 db0 h,
                      find_lem key t db0,
                      there,
                      on-put (write_back key (make (f a).0)) c db0 looked_up h,
                      some_left,
                      delete_if,
                    )
                    refl;
              sees = λ j. rw (shrink_view, there, some_left) (view-written (f a).0 j);
              consistent = written-IsConsistent (f a).0;
            }
          ]
        ]
