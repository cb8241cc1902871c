-- ===== src/Server/Commands/Strings/IncrBy.antt =====
-- INCR, DECR, INCRBY and DECRBY: their replies, and the value and deadline that they leave.
use mathlib.Core.Path.{subst, fun_ext}
use shrikedb.Prelude.{
  ℕ, zero, suc, ◌≡◌, refl, ap, sym, Bool, false, Option, none, some, ◌==◌, if◌then◌else◌,
  Bool-cases, Option-cases, inl, inr,
}
use shrikedb.Prelude.Int.{ℤ, pos, negsuc, ◌+ℤ◌, ◌-ℤ◌}
use shrikedb.Std.Bytes.{Bytes, bytes_eq}
use shrikedb.Std.Integer.{i64_max, fits_i64, parse_text}
use shrikedb.Core.CompactObj
use shrikedb.Core.CompactObj.{new_key, as_integer}
use shrikedb.Core.CompactObj.Laws.{prime_key}
use shrikedb.Facade.Resp.{RespArgs}
use shrikedb.Facade.Reply.{Reply, integer}
use shrikedb.Server.DbSlice.{DbTable, find, add_or_update}
use shrikedb.Server.DbSlice.View.{Visible, view, found}
use shrikedb.Server.DbSlice.Laws.{find_lem, view-find, view-add_or_update}
use shrikedb.Server.DbSlice.Consistent
use shrikedb.Server.DbSlice.Consistent.{IsConsistent, deadline_of-exists}
use shrikedb.Server.Context.{Context, M, ◌>>=◌, ◌>>◌, send, arg_bytes, arg_int}
use shrikedb.Server.Context.Laws.{put, time, Selected, on-put, arg_lem}
use shrikedb.Server.Commands.Strings.{not_an_integer}
use shrikedb.Server.Commands.Strings.Counters.{
  current, would_overflow, neg_i64, incr_by, cmd_incr, cmd_decr, cmd_incrby, cmd_decrby,
}
use shrikedb.Server.Context.Answers.{Answers, deadline_seen, live-find}

-- The number of a key: 0 if it is not seen, none if its value is no number.
abbrev pub number_seen : Visible → Option ℤ
number_seen none = some (pos 0)
number_seen (some (v, d)) = as_integer v

current_lem : (x : Visible) → current (found x) ≡ number_seen x
current_lem none = refl
current_lem (some (v, d)) = refl

-- The reply for a change of the number; there is none if an argument is no number.
abbrev pub counter_reply : Option (ℤ → ℤ) → Visible → Reply
counter_reply none before = not_an_integer
counter_reply (some f) before = elim (number_seen before) [
  | none ↦ not_an_integer
  | some n ↦ if fits_i64 (f n) then integer (f n) else would_overflow
]

abbrev changed : (ℤ → ℤ) → Option ℤ → Option ℤ
changed f none = none
changed f (some n) = if fits_i64 (f n) then some (f n) else none

abbrev pub counter_view : Bytes → Option (ℤ → ℤ) → ℕ → DbTable → Bytes → Visible
counter_view key none t db j = view t db j
counter_view key (some f) t db j = elim (changed f (number_seen (view t db key))) [
  | none ↦ view t db j
  | some n ↦
      if bytes_eq key j
      then some (CompactObj.integer n, deadline_seen (view t db key))
      else view t db j
]

-- The third argument as an i64.
abbrev pub third : RespArgs → Option ℤ
third args = elim (arg_bytes args 2) [ none ↦ none | some text ↦ parse_text text ]

abbrev pub by_third : (ℤ → ℤ → ℤ) → Option ℤ → Option (ℤ → ℤ)
by_third f none = none
by_third f (some d) = some (f d)

abbrev pub is_least : ℤ → Bool
is_least (pos n) = false
is_least (negsuc n) = n == i64_max

-- `-delta` of the least i64 is the least i64 again.
abbrev pub less : ℤ → ℤ → ℤ
less d n = if is_least d then n +ℤ d else n -ℤ d

less_lem : (d n : ℤ) → n +ℤ neg_i64 d ≡ less d n
unfolding ◌+ℤ◌ ◌-ℤ◌
less_lem (pos zero) n = refl
less_lem (pos (suc m)) n = refl
less_lem (negsuc m) n = elim (Bool-cases (m == i64_max)) [
  | inl least ↦ rw least refl
  | inr more ↦ rw more refl
]

module _ (args : RespArgs) (c : Context) (db : DbTable) (key : Bytes) where
  -- The command answers and leaves what the change of the number says.
  abbrev pub Counts : M (Unit {0}) → Option (ℤ → ℤ) → Type 0
  Counts m change =
      Answers m c db (counter_reply change (view (time c) db key))
        (counter_view key change (time c) db)

  incr_by-Counts :
      (delta : ℤ)
      → Selected c db
      → arg_bytes args 1 ≡ some key
      → IsConsistent db
      → Counts (incr_by args delta) (some (λ n. n +ℤ delta))
  unfolding incr_by send
  incr_by-Counts delta h hk k =
      let t = time c in
      let checked_db = (find key t db).0 in
      let kc = Consistent.find-IsConsistent key t k in
      elim (Option-cases (number_seen (view t db key))) [
        | inl text ↦ record {
          after = checked_db;
          run =
              rw
                (
                  incr_by,
                  counter_reply,
                  ◌>>=◌,
                  arg_lem args 1 key (put db c) hk,
                  on-put (find key) c db db h,
                  find_lem key t db,
                  current_lem (view t db key),
                  text,
                )
                refl;
          sees = λ j. rw (view-find key t db j, counter_view, text) refl;
          consistent = kc;
        }
        | inr (n, number) ↦ elim (Bool-cases (fits_i64 (n +ℤ delta))) [
          | inl fits ↦ record {
            after = (add_or_update key (CompactObj.integer (n +ℤ delta)) t checked_db).0;
            run =
                rw
                  (
                    incr_by,
                    counter_reply,
                    ◌>>=◌,
                    ◌>>◌,
                    arg_lem args 1 key (put db c) hk,
                    on-put (find key) c db db h,
                    find_lem key t db,
                    current_lem (view t db key),
                    number,
                    fits,
                    on-put (add_or_update key (CompactObj.integer (n +ℤ delta))) c db checked_db h,
                  )
                  refl;
            sees = λ j.
                rw
                  (
                    view-add_or_update key t checked_db (CompactObj.integer (n +ℤ delta)) j,
                    live-find key (CompactObj.integer (n +ℤ delta)) t db k,
                    view-find key t db j,
                    counter_view,
                    number,
                    fits,
                  )
                  refl;
            consistent =
                Consistent.add_or_update-IsConsistent key t kc (CompactObj.integer (n +ℤ delta));
          }
          | inr wide ↦ record {
            after = checked_db;
            run =
                rw
                  (
                    incr_by,
                    counter_reply,
                    ◌>>=◌,
                    arg_lem args 1 key (put db c) hk,
                    on-put (find key) c db db h,
                    find_lem key t db,
                    current_lem (view t db key),
                    number,
                    wide,
                  )
                  refl;
            sees = λ j. rw (view-find key t db j, counter_view, number, wide) refl;
            consistent = kc;
          }
        ]
      ]

  third-Counts :
      (m : M (Unit {0})) (f : ℤ → ℤ → ℤ)
      → (third args ≡ none → m ≡ send not_an_integer)
      → ((d : ℤ) → third args ≡ some d → Counts m (some (f d)))
      → IsConsistent db
      → Counts m (by_third f (third args))
  unfolding send
  third-Counts m f refused counts k = elim (Option-cases (third args)) [
    | inl text ↦
        subst (λ x. Counts m (by_third f x)) (sym text)
          (record {
            after = db;
            run = ap (λ r. r (put db c)) (refused text);
            sees = λ j. refl;
            consistent = k;
          })
    | inr (d, number) ↦ subst (λ x. Counts m (by_third f x)) (sym number) (counts d number)
  ]

  -- INCR, DECR, INCRBY and DECRBY on a consistent database: the old number, 0 if the key is not seen,
  -- plus or minus 1, or plus or minus the third argument, is answered and stored with the old
  -- deadline. An old value or a third argument that is no number, and a result that is no i64, get an
  -- error and change nothing. No other key changes. DECRBY of -2 ^ 63, which has no negative, adds it.
  pub incr_commands_lem :
      Selected c db
      → arg_bytes args 1 ≡ some key
      → IsConsistent db
      → Counts (cmd_incr args) (some (λ n. n +ℤ pos 1))
        × Counts (cmd_decr args) (some (λ n. n -ℤ pos 1))
        × Counts (cmd_incrby args) (by_third (λ d n. n +ℤ d) (third args))
        × Counts (cmd_decrby args) (by_third less (third args))
  unfolding cmd_incr cmd_decr cmd_incrby cmd_decrby arg_int send ◌+ℤ◌ ◌-ℤ◌
  incr_commands_lem h hk k = (
    incr_by-Counts (pos 1) h hk k,
    incr_by-Counts (negsuc 0) h hk k,
    third-Counts (cmd_incrby args) (λ d n. n +ℤ d) (λ text. rw (cmd_incrby, text) refl)
        (λ d number.
          subst (λ m. Counts m (some (λ n. n +ℤ d))) (rw (cmd_incrby, number) refl)
            (incr_by-Counts d h hk k))
        k,
    third-Counts (cmd_decrby args) less (λ text. rw (cmd_decrby, text) refl)
        (λ d number.
          subst (λ m. Counts m (some (less d))) (rw (cmd_decrby, number) refl)
            (subst (λ f. Counts (incr_by args (neg_i64 d)) (some f)) (fun_ext (less_lem d))
              (incr_by-Counts (neg_i64 d) h hk k)))
        k,
  )
