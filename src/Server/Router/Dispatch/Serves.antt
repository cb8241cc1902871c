-- ===== src/Server/Router/Dispatch/Serves.antt =====
-- A shard that runs its part of a command which only reads, one of several keys.
use mathlib.Core.Path.{fun_ext}
use shrikedb.Prelude.{
  ℕ, zero, suc, ◌+◌, ◌≡◌, ◌≤◌, ◌<◌, refl, ap, sym, ◌∙◌, ◌⊎◌, Bool-cases, true, false, inl, inr,
  none, some, List, [], ◌∷◌, ◌++◌, length, ◌==◌, get_elem?, set, get_elem?-set_ne, arith,
}
use shrikedb.Prelude.Int.{negsuc}
use shrikedb.Std.Bytes.{Bytes, codes, bytes_eq}
use shrikedb.Std.Text.{is_utf8, to_ascii_uppercase}
use shrikedb.Core.Key.{bytes_key}
use shrikedb.Core.Contract
use shrikedb.Facade.Resp.{RespArgs, string, as_bytes}
use shrikedb.Facade.Reply.{Reply, render_all}
use shrikedb.Server.DbSlice.{DbTable, update_time}
use shrikedb.Server.DbSlice.View.{Visible, view}
use shrikedb.Server.DbSlice.Consistent.{IsConsistent}
use shrikedb.Server.Context.{Context, EngineShard, M, add_u64}
use shrikedb.Server.Context.Laws.{
  put, time, Selected, Selected-put, put_self, strings, get_elem?-set_present,
}
use shrikedb.Server.Commands.Typed.Laws.{Sends}
use shrikedb.Server.Registry.{
  CommandEntry, CommandRegistry, dispatch, dispatch_name, run_entry, arity_fits, count_command,
}
use shrikedb.Server.Registry.Laws.{arity_fits_lem}
use shrikedb.Server.Router.{Threads, Cluster, R, ◌>>=◌, context_of, execute}
use shrikedb.Server.Router.Dispatch.Parts.{all_shards, others, range, run_part}
use shrikedb.Server.Router.Dispatch.Runs.{run_part_lem}

-- The registry has the command under its name, with one key at least.
pub record HasCommand (registry : CommandRegistry) (name : Bytes)
    (handler : RespArgs → M (Unit {0})) : Type 0 where
  pub entry : CommandEntry
  pub text : is_utf8 name ≡ true
  pub upper : to_ascii_uppercase name ≡ name
  pub stays : bytes_eq name (codes "QUIT") ≡ false
  pub found : Contract.find name registry ≡ some entry
  pub handler_lem : entry.handler ≡ handler
  pub arity : entry.arity ≡ negsuc 1

abbrev counted : Context → Context
counted c = record c {
  shard = record c.shard { commands_processed = add_u64 c.shard.commands_processed 1 };
}

abbrev pub command : Bytes → List Bytes → RespArgs
command name ks = string name ∷ strings ks

dispatch-command :
    (registry : CommandRegistry) (name : Bytes) (handler : RespArgs → M (Unit {0}))
    (has : HasCommand registry name handler) (ks : List Bytes) (c : Context)
    → arity_fits (negsuc 1) (length (command name ks)) ≡ true
    → dispatch registry (command name ks) c ≡ (elim (handler (command name ks) (counted c)) [
      | none ↦ none
      | some (r, c') ↦ some (true, c')
    ])
unfolding dispatch dispatch_name run_entry count_command as_bytes
dispatch-command registry name handler has ks c fits =
    rw
      (
        dispatch, has.upper, dispatch_name, has.text, has.stays, has.found, run_entry, has.arity,
        fits, ◌>>=◌, has.handler_lem,
      )
      refl

-- The shard holds the database of the connection, consistent, and shows `seen` at its time.
pub record Shows (shard : EngineShard) (i now : ℕ) (seen : Bytes → Visible) : Type 0 where
  pub table : DbTable
  pub selected : get_elem? shard.db_slice.dbs i ≡ some table
  pub consistent : IsConsistent table
  pub sees : (key : Bytes) → view now table key ≡ seen key

pub length-strings : (ks : List Bytes) → length (strings ks) ≡ length ks
length-strings [] = refl
length-strings (k ∷ ks) = ap suc (length-strings ks)

command-fits :
    (name : Bytes) (ks : List Bytes)
    → 0 < length ks
    → length ks < 32767
    → arity_fits (negsuc 1) (length (command name ks)) ≡ true
command-fits name ks some_key few =
    rw (arity_fits_lem (negsuc 1) (length (command name ks)) (omega (arith, length-strings ks)))
      (ground (arith, length-strings ks))

-- Every shard shows `seen` in the database of the connection.
abbrev pub AllShow : Threads → Cluster → (ℕ → Bytes → Visible) → Type 0
AllShow threads s seen =
    (sid : ℕ)
    → sid < threads.num_shards
    → (shard : EngineShard) × (get_elem? s.shards sid ≡ some shard)
      × Shows shard s.db_index (threads.now_ms sid) (seen sid)

pub AllShow-set :
    (threads : Threads) (s : Cluster) (seen : ℕ → Bytes → Visible) (sid : ℕ)
    (shard after : EngineShard)
    → AllShow threads s seen
    → get_elem? s.shards sid ≡ some shard
    → Shows after s.db_index (threads.now_ms sid) (seen sid)
    → AllShow threads (record s { shards = set s.shards sid after }) seen
AllShow-set threads s seen sid shard after all here shows i below = elim (Bool-cases (sid == i)) [
  | inl e ↦
      let same : sid ≡ i = ground arith in
      rw (sym same) (after, get_elem?-set_present s.shards sid shard after here, shows)
  | inr e ↦
      let (other, there, kept) = all i below in
      (other, get_elem?-set_ne s.shards after (ground arith) ∙ there, kept)
]

-- The command answers `answer` of what is seen, which it does not change.
abbrev pub OnlyReads :
    (RespArgs → M (Unit {0})) → RespArgs → ((Bytes → Visible) → List Reply) → Type 0
OnlyReads handler args answer =
    (c : Context) (db : DbTable)
    → Selected c db
    → IsConsistent db
    → Sends (handler args) c db (answer (view (time c) db)) (view (time c) db)

module _ (threads : Threads) (name : Bytes) (handler : RespArgs → M (Unit {0}))
    (has : HasCommand threads.registry name handler) (ks : List Bytes) (some_key : 0 < length ks)
    (few : length ks < 32767) (answer : (Bytes → Visible) → List Reply)
    (reads : OnlyReads handler (command name ks) answer) where
  -- The run on a shard, its replies and what it shows after.
  record Serves (sid : ℕ) (s : Cluster) (shard : EngineShard) (seen : Bytes → Visible)
      : Type 0 where
    pub after : EngineShard
    pub run :
        execute threads sid (command name ks) s
        ≡ some (
          (render_all threads.itoa (answer seen), s.db_index),
          record s { shards = set s.shards sid after },
        )
    pub shows : Shows after s.db_index (threads.now_ms sid) seen

  execute-Serves :
      (sid : ℕ) (s : Cluster) (shard : EngineShard) (seen : Bytes → Visible)
      → get_elem? s.shards sid ≡ some shard
      → Shows shard s.db_index (threads.now_ms sid) seen
      → Serves sid s shard seen
  unfolding execute update_time
  execute-Serves sid s shard seen here shows =
      let c = counted (context_of threads sid s shard) in
      let sends = reads c shows.table shows.selected shows.consistent in
      let fits = command-fits name ks some_key few in
      let same : answer (view (time c) shows.table) ≡ answer seen =
        ap answer (fun_ext shows.sees) in
      record {
        after = (put sends.after c).shard;
        run =
            rw
              (
                execute,
                here,
                dispatch-command threads.registry name handler has ks
                    (context_of threads sid s shard) fits,
                sym (put_self c shows.table shows.selected),
                sends.run,
                same,
              )
              refl;
        shows = record {
          table = sends.after;
          selected = Selected-put c shows.table sends.after shows.selected;
          consistent = sends.consistent;
          sees = λ key. sends.sees key ∙ shows.sees key;
        };
      }

  -- The same of `run_part`, which keeps the database of the connection.
  pub run_part-Serves :
      (sid : ℕ) (s : Cluster) (shard : EngineShard) (seen : Bytes → Visible)
      → get_elem? s.shards sid ≡ some shard
      → Shows shard s.db_index (threads.now_ms sid) seen
      → (after : EngineShard) × (run_part threads sid (command name ks) s
          ≡ some
              (render_all threads.itoa (answer seen), record s { shards = set s.shards sid after }))
        × Shows after s.db_index (threads.now_ms sid) seen
  run_part-Serves sid s shard seen here shows =
      let serves = execute-Serves sid s shard seen here shows in
      (
        serves.after,
        run_part_lem threads sid (command name ks) s (render_all threads.itoa (answer seen))
            (set s.shards sid serves.after) serves.run,
        serves.shows,
      )

pub List-cases :
    {A : Type 0} (xs : List A) → (xs ≡ []) ⊎ ((x : A) × (rest : List A) × (xs ≡ x ∷ rest))
List-cases [] = inl refl
List-cases (x ∷ rest) = inr (x, rest, refl)

module _ (threads : Threads) where
  abbrev pub Below : List ℕ → Type 0
  Below [] = Unit
  Below (sid ∷ sids) = (sid < threads.num_shards) × Below sids

  pub Below-range : (start n : ℕ) → start + n ≤ threads.num_shards → Below (range start n)
  Below-range start zero h = tt
  Below-range start (suc n) h = (omega arith, Below-range (suc start) n (omega arith))

  pub Below-others : (sids : List ℕ) → Below sids → Below (others threads sids)
  Below-others [] h = tt
  Below-others (sid ∷ sids) h = elim (Bool-cases (sid == threads.shard_id)) [
    | inl e ↦ rw e (Below-others sids h.1)
    | inr e ↦ rw e (h.0, Below-others sids h.1)
  ]

  pub all_shards-Below : threads.shard_id < threads.num_shards → Below (all_shards threads)
  all_shards-Below own = (
    own,
    Below-others (range 0 threads.num_shards) (Below-range 0 threads.num_shards (omega arith)),
  )

pub bind_lem :
    {A B : Type 0} (m : R A) (f : A → R B) (s : Cluster) (x : A) (after : Cluster)
    → m s ≡ some (x, after)
    → (m >>= f) s ≡ f x after
bind_lem m f s x after h = rw (◌>>=◌, h) refl

-- What a command answers and leaves.
pub record Answered (threads : Threads) (s : Cluster) (rs : List Reply) (seen : ℕ → Bytes → Visible)
    (m : R (Unit {0})) : Type 0 where
  pub after : Cluster
  pub run : m s ≡ some (tt, after)
  pub buffer : after.reply_buf ≡ s.reply_buf ++ render_all threads.itoa rs
  pub shows : AllShow threads after seen
