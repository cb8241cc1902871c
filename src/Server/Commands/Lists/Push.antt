-- ===== src/Server/Commands/Lists/Push.antt =====
-- LPUSH and RPUSH: their replies, and the list that they leave.
use mathlib.Core.List.{reverse}
use mathlib.Core.Path.{subst}
use shrikedb.Prelude.{
  ℕ, ◌≡◌, refl, ◌⊎◌, Option, none, some, List, [], ◌++◌, if◌then◌else◌, inl, inr, drop,
}
use shrikedb.Std.Bytes.{Bytes, bytes_eq}
use shrikedb.Core.CompactObj.{list}
use shrikedb.Facade.Resp.{RespArgs}
use shrikedb.Facade.Reply.{Reply, wrong_type}
use shrikedb.Server.DbSlice.{DbTable, find, add_or_update, write_back}
use shrikedb.Server.DbSlice.View.{Visible, view, found}
use shrikedb.Server.DbSlice.Laws.{find_lem, view-find, view-add_or_update, view-write_back}
use shrikedb.Server.DbSlice.Consistent
use shrikedb.Server.DbSlice.Consistent.{IsConsistent}
use shrikedb.Server.Context.{Context, ◌>>=◌, ◌>>◌, send, arg_bytes, all_bytes}
use shrikedb.Server.Context.Answers.{Answers, deadline_seen, live-find}
use shrikedb.Server.Context.Laws.{put, time, Selected, on-put, arg_lem, strings, all_bytes-strings}
use shrikedb.Server.Commands.Lists.Edits.{push_front_all, push_back_all}
use shrikedb.Server.Commands.Lists.Laws.{push_back_all-append, push_front_all-append}
use shrikedb.Server.Commands.Lists.Commands.{
  Found, missing, other, items, as_list, reply_length, push, cmd_lpush, cmd_rpush,
}

-- The list before the command, empty if no key is seen; `none` for a value of another type.
abbrev pub list_before : Found → Option (List Bytes)
list_before missing = some []
list_before other = none
list_before (items l) = some l

abbrev pub push_reply : (List Bytes → List Bytes) → Visible → Reply
push_reply f before = elim (list_before (as_list (found before))) [
  | none ↦ wrong_type []
  | some l ↦ reply_length (f l)
]

abbrev pub push_view : Bytes → (List Bytes → List Bytes) → ℕ → DbTable → Bytes → Visible
push_view key f t db j = elim (list_before (as_list (found (view t db key)))) [
  | none ↦ view t db j
  | some l ↦
      if bytes_eq key j then some (list (f l), deadline_seen (view t db key)) else view t db j
]

Found-cases : (x : Found) → (x ≡ missing) ⊎ ((x ≡ other) ⊎ ((l : List Bytes) × x ≡ items l))
Found-cases missing = inl refl
Found-cases other = inr (inl refl)
Found-cases (items l) = inr (inr (l, refl))

module _ (c : Context) (db0 : DbTable) (h : Selected c db0) (key : Bytes)
    (k : IsConsistent db0) where
  push-Answers :
      (push_all : List Bytes → List Bytes → List Bytes) (args : RespArgs) (vs : List Bytes)
      → arg_bytes args 1 ≡ some key
      → all_bytes (drop 2 args) (put db0 c) ≡ some (vs, put db0 c)
      → Answers
          (push push_all args)
          c
          db0
          (push_reply (push_all vs) (view (time c) db0 key))
          (push_view key (push_all vs) (time c) db0)
  unfolding push send
  push-Answers push_all args vs hk hv =
      let t = time c in
      let db = (find key t db0).0 in
      let kd = Consistent.find-IsConsistent key t k in
      elim (Found-cases (as_list (found (view t db0 key)))) [
        | inl none_yet ↦
            let v = list (push_all vs []) in
            record {
              after = (add_or_update key v t db).0;
              run =
                  rw
                    (
                      push,
                      push_reply,
                      ◌>>=◌,
                      ◌>>◌,
                      arg_lem args 1 key (put db0 c) hk,
                      hv,
                      on-put (find key) c db0 db0 h,
                      find_lem key t db0,
                      none_yet,
                      on-put (add_or_update key v) c db0 db h,
                    )
                    refl;
              sees = λ j.
                  rw
                    (
                      view-add_or_update key t db v j,
                      live-find key v t db0 k,
                      view-find key t db0 j,
                      push_view,
                      none_yet,
                    )
                    refl;
              consistent = Consistent.add_or_update-IsConsistent key t kd v;
            }
        | inr (inl wrong) ↦ record {
          after = db;
          run =
              rw
                (
                  push,
                  push_reply,
                  ◌>>=◌,
                  arg_lem args 1 key (put db0 c) hk,
                  hv,
                  on-put (find key) c db0 db0 h,
                  find_lem key t db0,
                  wrong,
                )
                refl;
          sees = λ j. rw (view-find key t db0 j, push_view, wrong) refl;
          consistent = kd;
        }
        | inr (inr (l, held)) ↦
            let v = list (push_all vs l) in
            record {
              after = (write_back key v t db).0;
              run =
                  rw
                    (
                      push,
                      push_reply,
                      ◌>>=◌,
                      ◌>>◌,
                      arg_lem args 1 key (put db0 c) hk,
                      hv,
                      on-put (find key) c db0 db0 h,
                      find_lem key t db0,
                      held,
                      on-put (write_back key v) c db0 db h,
                    )
                    refl;
              sees = λ j.
                  rw
                    (
                      view-write_back key t db v j,
                      live-find key v t db0 k,
                      view-find key t db0 j,
                      push_view,
                      held,
                    )
                    refl;
              consistent = Consistent.write_back-IsConsistent key t kd v;
            }
      ]

  -- RPUSH with string arguments, on a consistent database: the values are appended in their order
  -- to the list that is seen, or to the empty list if no key is, with the deadline as it was, and
  -- the reply is the new length. A value of another type gets an error and stays. No other key
  -- changes.
  pub cmd_rpush-Answers :
      (args : RespArgs) (vs : List Bytes)
      → arg_bytes args 1 ≡ some key
      → drop 2 args ≡ strings vs
      → Answers
          (cmd_rpush args)
          c
          db0
          (push_reply (λ l. l ++ vs) (view (time c) db0 key))
          (push_view key (λ l. l ++ vs) (time c) db0)
  unfolding cmd_rpush
  cmd_rpush-Answers args vs hk hv =
      subst
        (λ f.
          Answers (cmd_rpush args) c db0 (push_reply f (view (time c) db0 key))
            (push_view key f (time c) db0))
        (λ i l. push_back_all-append vs l i)
        (push-Answers push_back_all args vs hk (rw hv (all_bytes-strings vs (put db0 c))))

  -- LPUSH, likewise: the values are put before the list one by one, the last one first.
  pub cmd_lpush-Answers :
      (args : RespArgs) (vs : List Bytes)
      → arg_bytes args 1 ≡ some key
      → drop 2 args ≡ strings vs
      → Answers
          (cmd_lpush args)
          c
          db0
          (push_reply (λ l. reverse vs ++ l) (view (time c) db0 key))
          (push_view key (λ l. reverse vs ++ l) (time c) db0)
  unfolding cmd_lpush
  cmd_lpush-Answers args vs hk hv =
      subst
        (λ f.
          Answers (cmd_lpush args) c db0 (push_reply f (view (time c) db0 key))
            (push_view key f (time c) db0))
        (λ i l. push_front_all-append vs l i)
        (push-Answers push_front_all args vs hk (rw hv (all_bytes-strings vs (put db0 c))))
