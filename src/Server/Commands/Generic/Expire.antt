-- ===== src/Server/Commands/Generic/Expire.antt =====
-- EXPIRE, PEXPIRE, EXPIREAT and PEXPIREAT: their replies, and the deadline that they leave.
use mathlib.Core.Path.{subst}
use shrikedb.Prelude.{
  ℕ, ◌+◌, ◌-◌, ◌*◌, ◌%◌, ◌^◌, ◌≡◌, refl, ◌∙◌, true, Option, none, some, leb, if◌then◌else◌,
  Bool-cases, Option-cases, inl, inr,
}
use shrikedb.Prelude.Int.{ℤ, pos, negsuc}
use shrikedb.Std.Bytes.{Bytes, bytes_eq}
use shrikedb.Core.CompactObj.{PrimeValue}
use shrikedb.Facade.Resp.{RespArgs}
use shrikedb.Facade.Reply.{Reply, integer}
use shrikedb.Server.DbSlice.{DbTable, is_some, exists, del, add_expire}
use shrikedb.Server.DbSlice.View.{Visible, view, live}
use shrikedb.Server.DbSlice.Laws.{exists_lem, view-exists, view-del, view-add_expire}
use shrikedb.Server.DbSlice.Consistent
use shrikedb.Server.DbSlice.Consistent.{IsConsistent}
use shrikedb.Server.Context.{
  Context, ◌>>=◌, ◌>>◌, send, arg_bytes, arg_int, positive_u64, add_u64, mul_u64,
}
use shrikedb.Server.Context.Answers.{Answers, value_of-exists, view-unseen}
use shrikedb.Server.Context.Laws.{put, time, Selected, on-put, arg_lem}
use shrikedb.Server.Commands.Strings.{flag}
use shrikedb.Server.Commands.Generic.Expiry.{
  delete_now, set_expire_relative, set_expire_absolute, absolute_deadline,
}

-- What is seen of a key that gets the deadline `d`.
abbrev pub until : ℕ → ℕ → Visible → Visible
until t d none = none
until t d (some (v, old)) = live t (some v) (some d)

-- The view after EXPIRE: `d` is the new deadline, or `none` to delete the key.
abbrev pub expire_view : Bytes → Option ℕ → ℕ → DbTable → Bytes → Visible
expire_view key none t db j = if bytes_eq key j then none else view t db j
expire_view key (some d) t db j = if bytes_eq key j then until t d (view t db key) else view t db j

abbrev pub seen_reply : Visible → Reply
seen_reply before = integer (flag (is_some before))

-- The deadline in milliseconds, a u64; a negative time counts from 2 ^ 64 down.
abbrev pub deadline_at : ℕ → ℤ → ℕ
deadline_at multiplier (pos n) = n * multiplier % 2 ^ 64
deadline_at multiplier (negsuc n) = (2 ^ 64 - (n + 1)) * multiplier % 2 ^ 64

deadline_lem :
    (multiplier : ℕ) (ts : ℤ) → absolute_deadline multiplier ts ≡ deadline_at multiplier ts
deadline_lem multiplier (pos n) = refl
deadline_lem multiplier (negsuc n) = refl

module _ (c : Context) (db0 : DbTable) (h : Selected c db0) (key : Bytes)
    (k : IsConsistent db0) where
  delete_now-Answers :
      Answers
        (delete_now key)
        c
        db0
        (seen_reply (view (time c) db0 key))
        (expire_view key none (time c) db0)
  unfolding delete_now send
  delete_now-Answers =
      let t = time c in
      let db = (exists key t db0).0 in
      let kd = Consistent.exists-IsConsistent key t k in
      elim (Option-cases (view t db0 key)) [
        | inl absent ↦ record {
          after = db;
          run =
              rw (delete_now, ◌>>=◌, on-put (exists key) c db0 db0 h, exists_lem key t db0, absent)
                refl;
          sees = λ j. view-exists key t db0 j ∙ view-unseen t db0 key j absent;
          consistent = kd;
        }
        | inr ((v, d), present) ↦ record {
          after = (del key t db).0;
          run =
              rw
                (
                  delete_now,
                  ◌>>=◌,
                  ◌>>◌,
                  on-put (exists key) c db0 db0 h,
                  exists_lem key t db0,
                  present,
                  on-put (del key) c db0 db h,
                )
                refl;
          sees = λ j. rw (view-del key t db j, view-exists key t db0 j) refl;
          consistent = Consistent.del-IsConsistent key t kd;
        }
      ]

  -- A positive time sets the deadline, any other one deletes the key.
  abbrev time_deadline : ℕ → Option ℕ → Option ℕ
  time_deadline multiplier none = none
  time_deadline multiplier (some n) = some (add_u64 (time c) (mul_u64 n multiplier))

  set_deadline-sees :
      (v : PrimeValue) (old : Option ℕ) (d : ℕ) (j : Bytes)
      → view (time c) db0 key ≡ some (v, old)
      → view (time c) (add_expire key d (time c) (exists key (time c) db0).0).0 j
        ≡ expire_view key (some d) (time c) db0 j
  set_deadline-sees v old d j present =
      rw
        (
          view-add_expire key (time c) (exists key (time c) db0).0 d j,
          value_of-exists key v old (time c) db0 present,
          view-exists key (time c) db0 j,
          present,
        )
        refl

  unseen-sees :
      (d : Option ℕ) (j : Bytes)
      → view (time c) db0 key ≡ none
      → view (time c) (exists key (time c) db0).0 j ≡ expire_view key d (time c) db0 j
  unseen-sees none j absent = view-exists key (time c) db0 j ∙ view-unseen (time c) db0 key j absent
  unseen-sees (some d) j absent =
      view-exists key (time c) db0 j ∙ rw absent (view-unseen (time c) db0 key j absent)

  -- EXPIRE and PEXPIRE on a consistent database: the reply is whether the key is seen. A key that
  -- is seen gets the deadline, in u64, or is deleted if the time is not positive; no other key
  -- changes.
  pub set_expire_relative-Answers :
      (args : RespArgs) (secs : ℤ) (multiplier : ℕ)
      → arg_bytes args 1 ≡ some key
      → arg_int args 2 ≡ some secs
      → Answers
          (set_expire_relative multiplier args)
          c
          db0
          (seen_reply (view (time c) db0 key))
          (expire_view key (time_deadline multiplier (positive_u64 (some secs))) (time c) db0)
  unfolding set_expire_relative send
  set_expire_relative-Answers args secs multiplier hk hs =
      let t = time c in
      let db = (exists key t db0).0 in
      let kd = Consistent.exists-IsConsistent key t k in
      elim (Option-cases (positive_u64 (some secs))) [
        | inl gone ↦
            let a = delete_now-Answers in
            record {
              after = a.after;
              run =
                  rw (set_expire_relative, ◌>>=◌, arg_lem args 1 key (put db0 c) hk, hs, gone)
                    a.run;
              sees = λ j. rw gone (a.sees j);
              consistent = a.consistent;
            }
        | inr (n, positive) ↦ elim (Option-cases (view t db0 key)) [
          | inl absent ↦ record {
            after = db;
            run =
                rw
                  (
                    set_expire_relative,
                    ◌>>=◌,
                    arg_lem args 1 key (put db0 c) hk,
                    hs,
                    positive,
                    on-put (exists key) c db0 db0 h,
                    exists_lem key t db0,
                    absent,
                  )
                  refl;
            sees = λ j. unseen-sees _ j absent;
            consistent = kd;
          }
          | inr ((v, old), present) ↦ record {
            after = (add_expire key (add_u64 t (mul_u64 n multiplier)) t db).0;
            run =
                rw
                  (
                    set_expire_relative,
                    ◌>>=◌,
                    ◌>>◌,
                    arg_lem args 1 key (put db0 c) hk,
                    hs,
                    positive,
                    on-put (exists key) c db0 db0 h,
                    exists_lem key t db0,
                    present,
                    on-put (add_expire key (add_u64 t (mul_u64 n multiplier))) c db0 db h,
                  )
                  refl;
            sees = λ j. rw positive (set_deadline-sees v old _ j present);
            consistent = Consistent.add_expire-IsConsistent key t kd _;
          }
        ]
      ]

  deleted-sees :
      (v : PrimeValue) (old : Option ℕ) (d : ℕ) (j : Bytes)
      → view (time c) db0 key ≡ some (v, old)
      → leb d (time c) ≡ true
      → view (time c) (del key (time c) (exists key (time c) db0).0).0 j
        ≡ expire_view key (some d) (time c) db0 j
  deleted-sees v old d j present come =
      rw
        (
          view-del key (time c) (exists key (time c) db0).0 j,
          view-exists key (time c) db0 j,
          present,
          live,
          come,
        )
        refl

  set_expire_absolute-Converts :
      (args : RespArgs) (ts : ℤ) (multiplier : ℕ)
      → arg_bytes args 1 ≡ some key
      → arg_int args 2 ≡ some ts
      → Answers
          (set_expire_absolute multiplier args)
          c
          db0
          (seen_reply (view (time c) db0 key))
          (expire_view key (some (absolute_deadline multiplier ts)) (time c) db0)
  unfolding set_expire_absolute send
  set_expire_absolute-Converts args ts multiplier hk hs =
      let t = time c in
      let d = absolute_deadline multiplier ts in
      let db = (exists key t db0).0 in
      let kd = Consistent.exists-IsConsistent key t k in
      elim (Option-cases (view t db0 key)) [
        | inl absent ↦ record {
          after = db;
          run =
              rw
                (
                  set_expire_absolute,
                  ◌>>=◌,
                  arg_lem args 1 key (put db0 c) hk,
                  hs,
                  on-put (exists key) c db0 db0 h,
                  exists_lem key t db0,
                  absent,
                )
                refl;
          sees = λ j. unseen-sees (some d) j absent;
          consistent = kd;
        }
        | inr ((v, old), present) ↦ elim (Bool-cases (leb d t)) [
          | inl come ↦ record {
            after = (del key t db).0;
            run =
                rw
                  (
                    set_expire_absolute,
                    ◌>>=◌,
                    ◌>>◌,
                    arg_lem args 1 key (put db0 c) hk,
                    hs,
                    on-put (exists key) c db0 db0 h,
                    exists_lem key t db0,
                    present,
                    come,
                    on-put (del key) c db0 db h,
                  )
                  refl;
            sees = λ j. deleted-sees v old d j present come;
            consistent = Consistent.del-IsConsistent key t kd;
          }
          | inr later ↦ record {
            after = (add_expire key d t db).0;
            run =
                rw
                  (
                    set_expire_absolute,
                    ◌>>=◌,
                    ◌>>◌,
                    arg_lem args 1 key (put db0 c) hk,
                    hs,
                    on-put (exists key) c db0 db0 h,
                    exists_lem key t db0,
                    present,
                    later,
                    on-put (add_expire key d) c db0 db h,
                  )
                  refl;
            sees = λ j. set_deadline-sees v old d j present;
            consistent = Consistent.add_expire-IsConsistent key t kd d;
          }
        ]
      ]

  -- EXPIREAT and PEXPIREAT on a consistent database: the reply is whether the key is seen. A key
  -- that is seen gets the deadline, which a negative time reaches by the conversion to u64; a
  -- deadline that has come deletes it. No other key changes.
  pub set_expire_absolute-Answers :
      (args : RespArgs) (ts : ℤ) (multiplier : ℕ)
      → arg_bytes args 1 ≡ some key
      → arg_int args 2 ≡ some ts
      → Answers
          (set_expire_absolute multiplier args)
          c
          db0
          (seen_reply (view (time c) db0 key))
          (expire_view key (some (deadline_at multiplier ts)) (time c) db0)
  set_expire_absolute-Answers args ts multiplier hk hs =
      subst
        (λ d.
          Answers (set_expire_absolute multiplier args) c db0 (seen_reply (view (time c) db0 key))
            (expire_view key (some d) (time c) db0))
        (deadline_lem multiplier ts) (set_expire_absolute-Converts args ts multiplier hk hs)
