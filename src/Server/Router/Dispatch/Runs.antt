-- ===== src/Server/Router/Dispatch/Runs.antt =====
-- A part of a command that keeps the database of its context.
use mathlib.Core.Path.{subst}
use shrikedb.Prelude.{ℕ, ◌≡◌, refl, Bool-cases, inl, inr, some, List, ◌==◌, arith}
use shrikedb.Std.Bytes.{Bytes}
use shrikedb.Facade.Resp.{RespArgs}
use shrikedb.Server.Context.{EngineShard}
use shrikedb.Server.Router.{Threads, Cluster, ◌>>=◌, execute, run_local, run_remote}
use shrikedb.Server.Router.Dispatch.Parts.{run_part}

pub run_part_lem :
    (threads : Threads) (sid : ℕ) (args : RespArgs) (s : Cluster) (d : Bytes)
    (shards : List EngineShard)
    → execute threads sid args s ≡ some ((d, s.db_index), record s { shards = shards })
    → run_part threads sid args s ≡ some (d, record s { shards = shards })
unfolding run_part run_local run_remote
run_part_lem threads sid args s d shards h = elim (Bool-cases (sid == threads.shard_id)) [
  | inl e ↦
      let own : sid ≡ threads.shard_id = ground arith in
      let here =
        subst (λ i. execute threads i args s ≡ some ((d, s.db_index), record s { shards = shards }))
          own h in
      rw (run_part, e, run_local, ◌>>=◌, here) refl
  | inr e ↦ rw (run_part, e, run_remote, ◌>>=◌, h) refl
]
