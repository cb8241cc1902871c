-- ===== src/Server/Commands/Strings/SetParts.antt =====
-- string_family.rs: the parts of SET between its options and its reply, one lemma for each.
use shrikedb.Prelude.{
  ℕ, ◌-◌, ◌<◌, ◌≡◌, refl, Bool, true, false, ◌&&◌, not, Option, none, some, [], arith,
  if◌then◌else◌, Bool-cases, Option-cases, inl, inr,
}
use shrikedb.Std.Bytes.{Bytes, bytes_eq, bytes_eq_refl}
use shrikedb.Std.Integer.{u64_modulus}
use shrikedb.Core.CompactObj.{PrimeValue, is_string, as_bytes, from_bytes}
use shrikedb.Facade.Reply.{Reply, ok, null, wrong_type}
use shrikedb.Server.DbSlice.{
  DbTable, is_some, find, exists, add_or_update, add_expire, remove_expire, ttl_ms,
}
use shrikedb.Server.DbSlice.View.{Visible, view, live, value_of, deadline_of, find_same}
use shrikedb.Server.DbSlice.Laws.{
  find_lem, view-find, exists_lem, view-exists, ttl_ms_lem, view-ttl_ms, view-add_or_update,
  view-add_expire, view-remove_expire, find-insert_bytes,
}
use shrikedb.Server.DbSlice.Consistent
use shrikedb.Server.DbSlice.Consistent.{IsConsistent, deadline_of-exists}
use shrikedb.Server.Context.{Context, M, ◌>>=◌, on, add_u64}
use shrikedb.Server.Context.Laws.{put, time, Selected, on-put}
use shrikedb.Server.Commands.Strings.{bulk_or_null}
use shrikedb.Server.Commands.Strings.Options.{
  SetOptions, Old, old, not_a_string, capture, kept_deadline, set_expiry,
}

-- The old value as GET captures it.
abbrev pub captured : SetOptions → Visible → Old
captured o none = old none
captured o (some (v, d)) =
    if o.get then (if is_string v then old (some (as_bytes v)) else not_a_string) else old none

-- The deadline that KEEPTTL keeps.
abbrev pub kept : SetOptions → Visible → Option ℕ
kept o none = none
kept o (some (v, d)) = if o.keep_ttl then d else none

-- The deadline after SET.
abbrev pub new_deadline : ℕ → SetOptions → Visible → Option ℕ
new_deadline t o before = elim o.expire_ms [
  | some ms ↦ some (if o.expire_absolute then ms else add_u64 t ms)
  | none ↦ kept o before
]

-- Do NX and XX allow the write?
abbrev pub allowed : SetOptions → Bool → Bool
allowed o present = not (o.nx && present) && not (o.xx && not present)

abbrev pub checked_reply : SetOptions → Option Bytes → Bool → Reply
checked_reply o v present =
    if o.nx && present
    then (if o.get then bulk_or_null v else null)
    else if o.xx && not present
    then null
    else if o.get
    then bulk_or_null v
    else ok

-- Does SET write the value?
abbrev pub writes : SetOptions → Visible → Bool
writes o before = elim (captured o before) [
  | not_a_string ↦ false
  | old v ↦ allowed o (is_some before)
]

abbrev pub set_reply : SetOptions → Visible → Reply
set_reply o before = elim (captured o before) [
  | not_a_string ↦ wrong_type []
  | old v ↦ checked_reply o v (is_some before)
]

-- The two databases look the same at a time.
abbrev pub Same : ℕ → DbTable → DbTable → Type 0
Same t db db' = (j : Bytes) → view t db' j ≡ view t db j

-- A part of a handler that answers `a` and changes nothing that a client sees.
pub record Quiet {A : Type 0} (m : M A) (c : Context) (db : DbTable) (a : A) : Type 0 where
  pub after : DbTable
  pub run : m (put db c) ≡ some (a, put after c)
  pub same : Same (time c) db after
  pub consistent : IsConsistent db → IsConsistent after

module _ (c : Context) (db0 db : DbTable) (h : Selected c db0) (key : Bytes) where
  pub capture-Quiet :
      (o : SetOptions) → Quiet (capture key o) c db (captured o (view (time c) db key))
  unfolding capture
  capture-Quiet o = elim (Bool-cases o.get) [
    | inl asked ↦ record {
      after = (find key (time c) db).0;
      run =
          rw (capture, asked, on-put (find key) c db0 db h, find_lem key (time c) db, ◌>>=◌)
            (ground arith);
      same = view-find key (time c) db;
      consistent = λ k. Consistent.find-IsConsistent key (time c) k;
    }
    | inr unasked ↦ record { after = db; run = ground arith; same = λ j. refl; consistent = λ k. k }
  ]

  pub exists-Quiet : Quiet (on (exists key)) c db (is_some (view (time c) db key))
  exists-Quiet = record {
    after = (exists key (time c) db).0;
    run = rw (on-put (exists key) c db0 db h, exists_lem key (time c) db) refl;
    same = view-exists key (time c) db;
    consistent = λ k. Consistent.exists-IsConsistent key (time c) k;
  }

-- A deadline is a u64.
abbrev pub Fits : Visible → Type 0
Fits (some (v, some d)) = d < u64_modulus
Fits _ = Unit

live-later :
    (t : ℕ) (db : DbTable) (key : Bytes) (v : PrimeValue) (d : ℕ)
    → view t db key ≡ some (v, some d)
    → t < d
unfolding view
live-later t db key v d h = ground arith

add_u64-rest : (t d : ℕ) → t < d → d < u64_modulus → add_u64 t (d - t) ≡ d
add_u64-rest t d h k = omega arith

module _ (c : Context) (db0 db : DbTable) (h : Selected c db0) (key : Bytes) where
  kept_deadline-run :
      (o : SetOptions) (v : PrimeValue) (d : Option ℕ)
      → o.keep_ttl ≡ true
      → view (time c) db key ≡ some (v, d)
      → Fits (some (v, d))
      → kept_deadline key o true (put db c)
        ≡ some (kept o (some (v, d)), put (ttl_ms key (time c) db).0 c)
  unfolding kept_deadline
  kept_deadline-run o v none asked present fits =
      rw
        (
          kept_deadline,
          asked,
          on-put (ttl_ms key) c db0 db h,
          ttl_ms_lem key (time c) db,
          present,
          ◌>>=◌,
        )
        refl
  kept_deadline-run o v (some d) asked present fits =
      rw
        (
          kept_deadline,
          asked,
          on-put (ttl_ms key) c db0 db h,
          ttl_ms_lem key (time c) db,
          present,
          ◌>>=◌,
          add_u64-rest (time c) d (live-later (time c) db key v d present) fits,
        )
        refl

  deadline_of-ttl_ms : deadline_of db key ≡ none → deadline_of (ttl_ms key (time c) db).0 key ≡ none
  unfolding ttl_ms
  deadline_of-ttl_ms forever = ground arith

  pub kept_deadline-Quiet :
      (o : SetOptions)
      → Fits (view (time c) db key)
      → (q : Quiet
          (kept_deadline key o (is_some (view (time c) db key)))
          c
          db
          (kept o (view (time c) db key)))
        × (deadline_of db key ≡ none → deadline_of q.after key ≡ none)
  unfolding kept_deadline
  kept_deadline-Quiet o fits = elim (Option-cases (view (time c) db key)) [
    | inl absent ↦ (
      record { after = db; run = rw absent (ground arith); same = λ j. refl; consistent = λ k. k },
      λ e. e,
    )
    | inr ((v, d), present) ↦ elim (Bool-cases o.keep_ttl) [
      | inl asked ↦ (
        record {
          after = (ttl_ms key (time c) db).0;
          run = rw present (kept_deadline-run o v d asked present (rw present at fits));
          same = view-ttl_ms key (time c) db;
          consistent = λ k. Consistent.ttl_ms-IsConsistent key (time c) k;
        },
        deadline_of-ttl_ms,
      )
      | inr unasked ↦ (
        record {
          after = db;
          run = rw (present, unasked, kept_deadline) refl;
          same = λ j. refl;
          consistent = λ k. k;
        },
        λ e. e,
      )
    ]
  ]

-- The deadline that SET asks for, the kept one included.
abbrev pub wanted : ℕ → SetOptions → Option ℕ → Option ℕ
wanted t o old_expire = elim o.expire_ms [
  | some ms ↦ some (if o.expire_absolute then ms else add_u64 t ms)
  | none ↦ old_expire
]

-- The table after the deadline is set, kept as it is, or removed.
abbrev pub with_deadline : Bytes → ℕ → Option ℕ → Bool → DbTable → DbTable
with_deadline key t (some d) keep db = (add_expire key d t db).0
with_deadline key t none true db = db
with_deadline key t none false db = (remove_expire key t db).0

abbrev pub written : Bytes → Bytes → ℕ → SetOptions → Option ℕ → DbTable → DbTable
written key value t o old_expire db =
    with_deadline key t (wanted t o old_expire) o.keep_ttl
      (add_or_update key (from_bytes value) t db).0

pub set_expiry-run :
    (c : Context) (db0 db : DbTable) (key : Bytes) (o : SetOptions) (old_expire : Option ℕ)
    → Selected c db0
    → set_expiry key o old_expire (put db c)
      ≡ some (tt, put (with_deadline key (time c) (wanted (time c) o old_expire) o.keep_ttl db) c)
unfolding set_expiry
set_expiry-run c db0 db key o old_expire h = elim (Option-cases o.expire_ms) [
  | inl missing ↦ elim (Option-cases old_expire) [
    | inl forever ↦ elim (Bool-cases o.keep_ttl) [
      | inl keep ↦ rw (missing, forever, keep, set_expiry, with_deadline) refl
      | inr drops ↦
          rw (missing, forever, drops, set_expiry, ◌>>=◌, on-put (remove_expire key) c db0 db h)
            refl
    ]
    | inr (d, until) ↦ rw (missing, until, set_expiry, on-put (add_expire key d) c db0 db h) refl
  ]
  | inr (ms, given) ↦
      rw
        (
          given,
          set_expiry,
          ◌>>=◌,
          on-put (add_expire key (if o.expire_absolute then ms else add_u64 (time c) ms)) c db0 db
              h,
        )
        refl
]

module _ (key : Bytes) (t : ℕ) (db : DbTable) where
  view-with_deadline :
      (d : Option ℕ) (keep : Bool) (j : Bytes)
      → (keep ≡ true → d ≡ none → deadline_of db key ≡ none)
      → view t (with_deadline key t d keep db) j
        ≡ (if bytes_eq key j then live t (value_of db key) d else view t db j)
  unfolding view
  view-with_deadline (some d) keep j h = view-add_expire key t db d j
  view-with_deadline none true j h =
      ground (arith, h refl refl, find_same key j db.prime, find_same key j db.expire)
  view-with_deadline none false j h = view-remove_expire key t db j

  with_deadline-IsConsistent :
      (d : Option ℕ) (keep : Bool) → IsConsistent db → IsConsistent (with_deadline key t d keep db)
  with_deadline-IsConsistent (some d) keep c = Consistent.add_expire-IsConsistent key t c d
  with_deadline-IsConsistent none true c = c
  with_deadline-IsConsistent none false c = Consistent.remove_expire-IsConsistent key t c

  pub value_of-add_or_update : (v : PrimeValue) → value_of (add_or_update key v t db).0 key ≡ some v
  unfolding add_or_update
  value_of-add_or_update v = rw (find-insert_bytes key key db.prime v, bytes_eq_refl key) refl

  deadline_of-add_or_update :
      (v : PrimeValue) → deadline_of (add_or_update key v t db).0 key ≡ deadline_of db key
  unfolding add_or_update
  deadline_of-add_or_update v = refl

wanted-none :
    (t : ℕ) (o : SetOptions) (old_expire : Option ℕ)
    → wanted t o old_expire ≡ none
    → old_expire ≡ none
wanted-none t o old_expire h = ground arith

module _ (key value : Bytes) (t : ℕ) (o : SetOptions) (old_expire : Option ℕ) (db : DbTable) where
  pub view-written :
      (j : Bytes)
      → (o.keep_ttl ≡ true → old_expire ≡ none → deadline_of db key ≡ none)
      → view t (written key value t o old_expire db) j ≡ (
          if bytes_eq key j
          then live t (some (from_bytes value)) (wanted t o old_expire)
          else view t db j)
  view-written j h =
      let stored_db = (add_or_update key (from_bytes value) t db).0 in
      rw
        (
          view-with_deadline key t stored_db (wanted t o old_expire) o.keep_ttl j (λ keep lost.
              rw (deadline_of-add_or_update key t db (from_bytes value))
                (h keep (wanted-none t o old_expire lost))),
          value_of-add_or_update key t db (from_bytes value),
          view-add_or_update key t db (from_bytes value) j,
        )
        (ground arith)

  pub written-IsConsistent : IsConsistent db → IsConsistent (written key value t o old_expire db)
  written-IsConsistent c =
      with_deadline-IsConsistent key t _ _ o.keep_ttl
        (Consistent.add_or_update-IsConsistent key t c (from_bytes value))
