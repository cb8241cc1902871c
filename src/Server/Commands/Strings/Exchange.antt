-- ===== src/Server/Commands/Strings/Exchange.antt =====
-- SETNX, GETSET and GETDEL: their replies, and the value and deadline that they leave.
use shrikedb.Prelude.{
  ℕ, ◌≡◌, refl, true, false, not, Option, none, some, arith, [], ◌∷◌, if◌then◌else◌, Bool-cases,
  inl, inr,
}
use shrikedb.Std.Bytes.{Bytes, bytes_eq}
use shrikedb.Core.CompactObj.{PrimeValue, is_string, as_bytes, from_bytes, new_key}
use shrikedb.Core.CompactObj.Laws.{prime_key}
use shrikedb.Facade.Resp.{RespArgs}
use shrikedb.Facade.Reply.{bulk_string, integer}
use shrikedb.Server.DbSlice.{
  DbTable, is_some, find, add_or_update, add_if_absent, del, remove_expire,
}
use shrikedb.Server.DbSlice.View.{Visible, view}
use shrikedb.Server.DbSlice.Laws.{
  find_lem, view-find, view-add_or_update, view-remove_expire, view-del, view-add_if_absent,
  add_if_absent_lem, stored,
}
use shrikedb.Server.DbSlice.Consistent
use shrikedb.Server.DbSlice.Consistent.{IsConsistent}
use shrikedb.Server.Context.{Context, ◌>>=◌, ◌>>◌, send, arg_bytes}
use shrikedb.Server.Context.Laws.{put, say, time, Selected, on-put, arg_lem}
use shrikedb.Server.Context.Answers.{Answers}
use shrikedb.Server.Commands.Strings.{flag, cmd_setnx, cmd_getset, cmd_getdel}
use shrikedb.Server.Commands.Strings.Laws.{get_reply}
use shrikedb.Server.Commands.Strings.SetParts.{value_of-add_or_update}

-- A key that is not seen, one with a string, and one with a value of another type.
pub data OldCase (x : Visible) : Type 0 where
  unseen : x ≡ none → OldCase x
  text : (v : PrimeValue) (d : Option ℕ) → x ≡ some (v, d) → is_string v ≡ true → OldCase x
  other : (v : PrimeValue) (d : Option ℕ) → x ≡ some (v, d) → is_string v ≡ false → OldCase x

pub OldCase-cases : (x : Visible) → OldCase x
OldCase-cases none = unseen refl
OldCase-cases (some (v, d)) = elim (Bool-cases (is_string v)) [
  | inl e ↦ text v d refl e
  | inr e ↦ other v d refl e
]

-- The view after GETSET.
abbrev pub getset_view : Bytes → Bytes → ℕ → DbTable → Bytes → Visible
getset_view key value t db j = elim (view t db key) [
  | none ↦ if bytes_eq key j then some (from_bytes value, none) else view t db j
  | some (v, d) ↦
      if is_string v
      then (if bytes_eq key j then some (from_bytes value, none) else view t db j)
      else view t db j
]

-- The view after GETDEL.
abbrev pub getdel_view : Bytes → ℕ → DbTable → Bytes → Visible
getdel_view key t db j = elim (view t db key) [
  | none ↦ view t db j
  | some (v, d) ↦
      if is_string v then (if bytes_eq key j then none else view t db j) else view t db j
]

module _ (c : Context) (db0 : DbTable) (h : Selected c db0) (key : Bytes) (k : IsConsistent db0)
    (args : RespArgs) (hk : arg_bytes args 1 ≡ some key) where
  abbrev looked_up : DbTable
  looked_up = (find key (time c) db0).0

  abbrev replaced : Bytes → DbTable
  replaced value =
      (remove_expire key (time c) (add_or_update key (from_bytes value) (time c) looked_up).0).0

  view-replaced :
      (value j : Bytes)
      → view (time c) (replaced value) j
        ≡ (if bytes_eq key j then some (from_bytes value, none) else view (time c) db0 j)
  view-replaced value j =
      let t = time c in
      let v = from_bytes value in
      rw
        (
          view-remove_expire key t (add_or_update key v t looked_up).0 j,
          value_of-add_or_update key t looked_up v,
          view-add_or_update key t looked_up v j,
          view-find key t db0 j,
        )
        (ground arith)

  replaced-IsConsistent : (value : Bytes) → IsConsistent (replaced value)
  replaced-IsConsistent value = Consistent.remove_expire-IsConsistent key (time c) (
      Consistent.add_or_update-IsConsistent key (time c)
        (Consistent.find-IsConsistent key (time c) k) (from_bytes value))

  -- GETSET on a consistent database: the old string is answered, or null if no key is seen, and
  -- the new value is stored with no deadline; a value of another type gets an error and stays. No
  -- other key changes.
  pub cmd_getset-Answers :
      (value : Bytes)
      → arg_bytes args 2 ≡ some value
      → Answers
          (cmd_getset args)
          c
          db0
          (get_reply (view (time c) db0 key))
          (getset_view key value (time c) db0)
  unfolding cmd_getset send
  cmd_getset-Answers value hv =
      let t = time c in
      let written = (add_or_update key (from_bytes value) t looked_up).0 in
      elim (OldCase-cases (view t db0 key)) [
        | unseen none_yet ↦ record {
          after = replaced value;
          run =
              rw
                (
                  cmd_getset,
                  get_reply,
                  ◌>>=◌,
                  ◌>>◌,
                  arg_lem args 1 key (put db0 c) hk,
                  arg_lem args 2 value (put db0 c) hv,
                  on-put (find key) c db0 db0 h,
                  find_lem key t db0,
                  none_yet,
                  on-put (add_or_update key (from_bytes value)) c db0 looked_up h,
                  on-put (remove_expire key) c db0 written h,
                )
                refl;
          sees = λ j. rw (getset_view, none_yet) (view-replaced value j);
          consistent = replaced-IsConsistent value;
        }
        | text v d held string ↦ record {
          after = replaced value;
          run =
              rw
                (
                  cmd_getset,
                  get_reply,
                  ◌>>=◌,
                  ◌>>◌,
                  arg_lem args 1 key (put db0 c) hk,
                  arg_lem args 2 value (put db0 c) hv,
                  on-put (find key) c db0 db0 h,
                  find_lem key t db0,
                  held,
                  string,
                  on-put (add_or_update key (from_bytes value)) c db0 looked_up h,
                  on-put (remove_expire key) c db0 written h,
                )
                refl;
          sees = λ j. rw (getset_view, held, string) (view-replaced value j);
          consistent = replaced-IsConsistent value;
        }
        | other v d held odd ↦ record {
          after = looked_up;
          run =
              rw
                (
                  cmd_getset,
                  get_reply,
                  ◌>>=◌,
                  arg_lem args 1 key (put db0 c) hk,
                  arg_lem args 2 value (put db0 c) hv,
                  on-put (find key) c db0 db0 h,
                  find_lem key t db0,
                  held,
                  odd,
                )
                refl;
          sees = λ j. rw (getset_view, held, odd) (view-find key t db0 j);
          consistent = Consistent.find-IsConsistent key t k;
        }
      ]

  -- GETDEL on a consistent database: the string is answered and its key removed; if no key is seen
  -- the answer is null; a value of another type gets an error and stays. No other key changes.
  pub cmd_getdel-Answers :
      Answers
        (cmd_getdel args)
        c
        db0
        (get_reply (view (time c) db0 key))
        (getdel_view key (time c) db0)
  unfolding cmd_getdel send
  cmd_getdel-Answers =
      let t = time c in
      let kd = Consistent.find-IsConsistent key t k in
      elim (OldCase-cases (view t db0 key)) [
        | unseen none_yet ↦ record {
          after = looked_up;
          run =
              rw
                (
                  cmd_getdel,
                  get_reply,
                  ◌>>=◌,
                  arg_lem args 1 key (put db0 c) hk,
                  on-put (find key) c db0 db0 h,
                  find_lem key t db0,
                  none_yet,
                )
                refl;
          sees = λ j. rw (getdel_view, none_yet) (view-find key t db0 j);
          consistent = kd;
        }
        | text v d held string ↦ record {
          after = (del key t looked_up).0;
          run =
              rw
                (
                  cmd_getdel,
                  get_reply,
                  ◌>>=◌,
                  ◌>>◌,
                  send,
                  arg_lem args 1 key (put db0 c) hk,
                  on-put (find key) c db0 db0 h,
                  find_lem key t db0,
                  held,
                  string,
                  on-put (del key) (say (bulk_string (as_bytes v) ∷ []) c) db0 looked_up h,
                )
                refl;
          sees = λ j.
              rw (getdel_view, held, string, view-del key t looked_up j, view-find key t db0 j)
                refl;
          consistent = Consistent.del-IsConsistent key t kd;
        }
        | other v d held odd ↦ record {
          after = looked_up;
          run =
              rw
                (
                  cmd_getdel,
                  get_reply,
                  ◌>>=◌,
                  arg_lem args 1 key (put db0 c) hk,
                  on-put (find key) c db0 db0 h,
                  find_lem key t db0,
                  held,
                  odd,
                )
                refl;
          sees = λ j. rw (getdel_view, held, odd) (view-find key t db0 j);
          consistent = kd;
        }
      ]

  -- SETNX on a consistent database: a key that is seen stays as it is, and otherwise the value is
  -- stored with no deadline; the reply is whether it was stored. No other key changes.
  pub cmd_setnx-Answers :
      (value : Bytes)
      → arg_bytes args 2 ≡ some value
      → Answers
          (cmd_setnx args)
          c
          db0
          (integer (flag (not (is_some (view (time c) db0 key)))))
          (λ j.
            if bytes_eq key j
            then stored (from_bytes value) (view (time c) db0 key)
            else view (time c) db0 j)
  unfolding cmd_setnx send
  cmd_setnx-Answers value hv =
      let t = time c in
      let v = from_bytes value in
      record {
        after = (add_if_absent key v t db0).0;
        run =
            rw
              (
                cmd_setnx,
                ◌>>=◌,
                arg_lem args 1 key (put db0 c) hk,
                arg_lem args 2 value (put db0 c) hv,
                on-put (add_if_absent key v) c db0 db0 h,
                add_if_absent_lem key t db0 v,
              )
              refl;
        sees = λ j. view-add_if_absent key t db0 v j (k.held (new_key key));
        consistent = Consistent.add_if_absent-IsConsistent key t k v;
      }
