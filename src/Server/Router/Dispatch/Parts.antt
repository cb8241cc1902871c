-- ===== src/Server/Router/Dispatch/Parts.antt =====
-- shard_thread.rs: the commands whose keys or whose work are split between the shards: first the
-- part of the connection's shard, then those of the others.
use shrikedb.Prelude.{
  ℕ, zero, suc, not, ◌||◌, Option, none, some, List, [], ◌∷◌, ◌++◌, map, ◌==◌, if◌then◌else◌,
  length, set, replicate,
}
use shrikedb.Prelude.Int.{ℤ, pos}
use shrikedb.Std.Bytes.{Bytes, codes, bytes_eq}
use shrikedb.Std.Integer.{wrapping_add}
use shrikedb.Facade.Resp.{RespExpr, RespArgs, string, as_bytes}
use shrikedb.Facade.Reply.{value_reply, ok, err, integer, array_len, string_array}
use shrikedb.Server.Context.{tail}
use shrikedb.Server.Registry.{wrong_arity}
use shrikedb.Server.Commands.Strings.{even}
use shrikedb.Server.Sharding.{shard}
use shrikedb.Server.Router.{
  Threads, R, pure, ◌>>=◌, ◌>>◌, extend, or_empty, reply, run_local, run_remote, run_at,
}
use shrikedb.Server.Router.Replies.{parse_resp_integer, parse_resp_array}

abbrev pub range : ℕ → ℕ → List ℕ
range start zero = []
range start (suc n) = start ∷ range (suc start) n

-- `unwrap_or(0)`
abbrev or_zero : Option ℤ → ℤ
or_zero none = pos 0
or_zero (some n) = n

abbrev pub number_of : Bytes → ℤ
number_of d = or_zero (parse_resp_integer d)

-- The values of an array; the fuel of `parse_resp_array` is enough.
abbrev values_or_none : Option (List (Option Bytes)) → List (Option Bytes)
values_or_none none = []
values_or_none (some vs) = vs

abbrev pub values_of : Bytes → List (Option Bytes)
values_of d = values_or_none (parse_resp_array d)

abbrev pub present : List (Option Bytes) → List Bytes
present [] = []
present (none ∷ vs) = present vs
present (some v ∷ vs) = v ∷ present vs

-- `for (idx, pos) in positions { if idx < values.len() { results[pos] = values[idx] } }`
unfoldable pub fill : List ℕ → List (Option Bytes) → List (Option Bytes) → List (Option Bytes)
fill [] values results = results
fill (p ∷ ps) [] results = results
fill (p ∷ ps) (v ∷ values) results = fill ps values (set results p v)

module _ (threads : Threads) where
  abbrev pub shard_of : RespExpr → ℕ
  shard_of e = shard (or_empty (as_bytes e)) threads.num_shards

  -- The shards but the connection's.
  abbrev pub others : List ℕ → List ℕ
  others [] = []
  others (sid ∷ sids) =
      let rest = others sids in if sid == threads.shard_id then rest else sid ∷ rest

  -- `shard_keys`: the keys of one shard, in their order.
  unfoldable pub keys_of : ℕ → RespArgs → RespArgs
  keys_of sid [] = []
  keys_of sid (e ∷ es) = let rest = keys_of sid es in if shard_of e == sid then e ∷ rest else rest

  -- `shard_positions`, from the index `i` on.
  unfoldable pub positions_of : ℕ → ℕ → RespArgs → List ℕ
  positions_of sid i [] = []
  positions_of sid i (e ∷ es) =
      let rest = positions_of sid (suc i) es in if shard_of e == sid then i ∷ rest else rest

  -- A part of a command, on the connection's shard or on another.
  unfoldable pub run_part : ℕ → RespArgs → R Bytes
  unfolding run_local run_remote
  run_part sid args =
      if sid == threads.shard_id then run_local threads args else run_remote threads sid args

  -- The parts of a sum, on the shards that have a key.
  unfoldable pub sum_parts : RespExpr → RespArgs → List ℕ → ℤ → R ℤ
  unfolding keys_of run_part
  sum_parts cmd keys [] total = pure total
  sum_parts cmd keys (sid ∷ sids) total = elim (keys_of sid keys) [
    | [] ↦ sum_parts cmd keys sids total
    | e ∷ es ↦ do
      d ← run_part sid (cmd ∷ (e ∷ es))
      sum_parts cmd keys sids (wrapping_add total (number_of d))
  ]

  abbrev pub all_shards : List ℕ
  all_shards = threads.shard_id ∷ others (range 0 threads.num_shards)

  unfoldable pub dispatch_multi_key_sum : RespArgs → R (Unit {0})
  unfolding sum_parts reply
  dispatch_multi_key_sum [] = pure tt
  dispatch_multi_key_sum (cmd ∷ keys) = do
    total ← sum_parts cmd keys all_shards (pos 0)
    reply threads (integer total ∷ [])

  unfoldable pub mget_parts : RespArgs → List ℕ → List (Option Bytes) → R (List (Option Bytes))
  unfolding keys_of positions_of run_part fill
  mget_parts keys [] results = pure results
  mget_parts keys (sid ∷ sids) results = elim (keys_of sid keys) [
    | [] ↦ mget_parts keys sids results
    | e ∷ es ↦ do
      d ← run_part sid (string (codes "MGET") ∷ (e ∷ es))
      mget_parts keys sids (fill (positions_of sid 0 keys) (values_of d) results)
  ]

  unfoldable pub mget_keys : RespArgs → R (Unit {0})
  unfolding mget_parts reply
  mget_keys keys = do
    results ← mget_parts keys all_shards (replicate (length keys) none)
    reply threads (array_len (length keys) ∷ map value_reply results)

  unfoldable pub dispatch_mget : RespArgs → R (Unit {0})
  unfolding mget_keys
  dispatch_mget args = mget_keys (tail args)

  -- `shard_pairs`: the keys of one shard with their values.
  unfoldable pub pairs_of : ℕ → RespArgs → RespArgs
  pairs_of sid (k ∷ v ∷ es) =
      let rest = pairs_of sid es in if shard_of k == sid then k ∷ v ∷ rest else rest
  pairs_of sid _ = []

  unfoldable pub mset_parts : RespArgs → List ℕ → R (Unit {0})
  unfolding pairs_of run_part
  mset_parts args [] = pure tt
  mset_parts args (sid ∷ sids) = elim (pairs_of sid args) [
    | [] ↦ mset_parts args sids
    | e ∷ es ↦ do run_part sid (string (codes "MSET") ∷ (e ∷ es)); mset_parts args sids
  ]

  -- The one shard of all keys of MSETNX, or none if there are two.
  unfoldable pub one_shard : Option ℕ → RespArgs → Option (Option ℕ)
  one_shard target (k ∷ v ∷ es) = elim target [
    | none ↦ one_shard (some (shard_of k)) es
    | some s ↦ if s == shard_of k then one_shard (some s) es else none
  ]
  one_shard target _ = some target

  unfoldable pub dispatch_msetnx : RespArgs → Option (Option ℕ) → R (Unit {0})
  unfolding reply run_at
  dispatch_msetnx args none =
      reply threads (err (codes "CROSSSLOT Keys in request don't hash to the same slot") ∷ [])
  dispatch_msetnx args (some none) = pure tt
  dispatch_msetnx args (some (some sid)) = run_at threads sid args

  unfoldable pub dispatch_mset : Bytes → RespArgs → R (Unit {0})
  unfolding reply one_shard dispatch_msetnx mset_parts
  dispatch_mset cmd args =
      if not (even (length (tail args)))
      then reply threads (wrong_arity cmd ∷ [])
      else if bytes_eq cmd (codes "MSETNX")
      then dispatch_msetnx args (one_shard none (tail args))
      else (do mset_parts (tail args) all_shards; reply threads (ok ∷ []))

  -- The same command on the other shards.
  unfoldable pub run_others : RespArgs → List ℕ → R (List Bytes)
  unfolding run_remote
  run_others args [] = pure []
  run_others args (sid ∷ sids) = do
    d ← run_remote threads sid args
    ds ← run_others args sids
    pure (d ∷ ds)

  abbrev sum_of : ℤ → List Bytes → ℤ
  sum_of total [] = total
  sum_of total (d ∷ ds) = sum_of (wrapping_add total (number_of d)) ds

  abbrev keys_in : List Bytes → List Bytes
  keys_in [] = []
  keys_in (d ∷ ds) = present (values_of d) ++ keys_in ds

  unfoldable pub merge : Bytes → Bytes → List Bytes → R (Unit {0})
  unfolding reply
  merge cmd here bufs =
      if bytes_eq cmd (codes "DBSIZE")
      then reply threads (integer (sum_of (number_of here) bufs) ∷ [])
      else if bytes_eq cmd (codes "FLUSHDB") || bytes_eq cmd (codes "FLUSHALL")
      then reply threads (ok ∷ [])
      else if bytes_eq cmd (codes "KEYS")
      then reply threads (string_array (keys_in (here ∷ bufs)))
      else extend here

  unfoldable pub dispatch_global : Bytes → RespArgs → R (Unit {0})
  unfolding run_local run_others merge
  dispatch_global cmd args = do
    here ← run_local threads args
    (if threads.num_shards == 1
        then extend here
        else (do bufs ← run_others args (others (range 0 threads.num_shards)); merge cmd here bufs))
