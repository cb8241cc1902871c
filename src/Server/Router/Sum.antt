-- ===== src/Server/Router/Sum.antt =====
-- EXISTS on several shards: `dispatch_multi_key_sum` of shard_thread.rs.
pub mod Total
use shrikedb.Prelude.{
  ℕ, zero, suc, ◌+◌, ◌≡◌, ◌≤◌, ◌<◌, refl, ap, sym, ◌∙◌, Bool, true, false, Bool-cases, inl, inr,
  none, some, List, [], ◌∷◌, ◌++◌, ◌==◌, if◌then◌else◌, length, get_elem?, set, arith,
}
use shrikedb.Prelude.Int.{ℤ, pos}
use shrikedb.Std.Bytes.{Bytes, codes}
use shrikedb.Std.Integer.{i64_max, wrapping_add}
use shrikedb.Facade.Resp.{RespArgs, string}
use shrikedb.Facade.Reply.{Itoa, integer, render_all}
use shrikedb.Server.DbSlice.{is_some}
use shrikedb.Server.DbSlice.View.{Visible}
use shrikedb.Server.Context.Laws.{strings}
use shrikedb.Server.Commands.Generic.{cmd_exists}
use shrikedb.Server.Commands.Generic.Exists.{hits, cmd_exists-Sends}
use shrikedb.Server.Router.{Threads, Cluster, ◌>>=◌, reply}
use shrikedb.Server.Router.Replies.{parse_resp_integer}
use shrikedb.Server.Router.Replies.Laws.{parse_resp_integer-render}
use shrikedb.Server.Router.Dispatch.Parts.{
  all_shards, number_of, keys_of, sum_parts, dispatch_multi_key_sum,
}
use shrikedb.Server.Router.Dispatch.Serves.{
  HasCommand, command, AllShow, AllShow-set, Answered, Below, all_shards-Below, List-cases,
  bind_lem, run_part-Serves,
}
use shrikedb.Server.Router.MultiGet.Gather.{home, part, length-part, keys_of-strings}
use shrikedb.Server.Router.Sum.Total.{hits_bound, total, total-all_shards}

wrapping_add_lem : (a b : ℕ) → a + b ≤ i64_max → wrapping_add (pos a) (pos b) ≡ pos (a + b)
unfolding wrapping_add
wrapping_add_lem a b h = ground arith

number_of-render :
    (itoa : Itoa) (n : ℕ) → n ≤ i64_max → number_of (render_all itoa (integer (pos n) ∷ [])) ≡ pos n
number_of-render itoa n h = rw (parse_resp_integer-render itoa (pos n) h) refl

module _ (threads : Threads) (has : HasCommand threads.registry (codes "EXISTS") cmd_exists)
    (seen : ℕ → Bytes → Visible) (ks : List Bytes) (few : length ks < 32767) where
  abbrev pub held : ℕ → Bytes → Bool
  held sid key = is_some (seen sid key)

  -- The parts on the shards of a list.
  record Sums (sids : List ℕ) (t : ℕ) (s : Cluster) : Type 0 where
    pub after : Cluster
    pub run :
        sum_parts threads (string (codes "EXISTS")) (strings ks) sids (pos t) s
        ≡ some (pos (t + total threads held sids ks), after)
    pub buffer : after.reply_buf ≡ s.reply_buf
    pub shows : AllShow threads after seen

  sum_parts-Sums :
      (sids : List ℕ) (t : ℕ) (s : Cluster)
      → Below threads sids
      → t + total threads held sids ks ≤ i64_max
      → AllShow threads s seen
      → Sums sids t s
  unfolding sum_parts
  sum_parts-Sums [] t s below small all = record {
    after = s;
    run = ap (λ n. some (pos n, s)) (omega arith);
    buffer = refl;
    shows = all;
  }
  sum_parts-Sums (sid ∷ sids) t s below small all = elim (List-cases (part threads sid ks)) [
    | inl nobody ↦
        let none_here : hits (held sid) (part threads sid ks) ≡ 0 = ap (hits (held sid)) nobody in
        let next = sum_parts-Sums sids t s below.1 (omega (arith, none_here)) all in
        record {
          after = next.after;
          run =
              rw (sum_parts, keys_of-strings threads sid ks, nobody)
                (next.run ∙ ap (λ n. some (pos n, next.after)) (omega arith));
          buffer = next.buffer;
          shows = next.shows;
        }
    | inr (k, rest, somebody) ↦
        let (shard, here, shown) = all sid below.0 in
        let size : length (k ∷ rest) ≤ length ks =
          omega (arith, ap length somebody, length-part threads sid ks) in
        let n = hits (held sid) (k ∷ rest) in
        let same : hits (held sid) (part threads sid ks) ≡ n = ap (hits (held sid)) somebody in
        let (after, ran, kept) =
          run_part-Serves threads (codes "EXISTS") cmd_exists has (k ∷ rest) (omega arith)
            (omega arith) (λ f. integer (pos (hits (λ key. is_some (f key)) (k ∷ rest))) ∷ [])
            (λ c db h i.
              cmd_exists-Sends c db h i (command (codes "EXISTS") (k ∷ rest)) (k ∷ rest) refl)
            sid s shard (seen sid) here shown in
        let next =
          sum_parts-Sums sids (t + n) (record s { shards = set s.shards sid after }) below.1
            (omega (arith, same)) (AllShow-set threads s seen sid shard after all here kept) in
        record {
          after = next.after;
          run =
              rw
                (
                  sum_parts,
                  keys_of-strings threads sid ks,
                  somebody,
                  ◌>>=◌,
                  ran,
                  number_of-render threads.itoa n (omega (arith, hits_bound (held sid) (k ∷ rest))),
                  wrapping_add_lem t n (omega (arith, same)),
                )
                (next.run ∙ ap (λ n. some (pos n, next.after)) (omega (arith, same)));
          buffer = next.buffer;
          shows = next.shows;
        }
  ]

-- EXISTS of fewer than 32767 keys, which are strings, on several shards, of which the connection's is
-- one: the reply is how many of the keys are seen, each on its shard, a key that comes twice counted
-- twice; no shard shows a change. Each shard has the database of the connection, consistent, and the
-- registry has EXISTS.
pub dispatch_multi_key_sum-Answered :
    (threads : Threads)
    → threads.shard_id < threads.num_shards
    → HasCommand threads.registry (codes "EXISTS") cmd_exists
    → (seen : ℕ → Bytes → Visible) → (keys : List Bytes) → length keys < 32767
    → (s : Cluster) → AllShow threads s seen
    → Answered threads s
        (integer (pos (hits (λ key. is_some (seen (home threads key) key)) keys)) ∷ [])
        seen
        (dispatch_multi_key_sum threads (command (codes "EXISTS") keys))
unfolding dispatch_multi_key_sum reply
dispatch_multi_key_sum-Answered threads own has seen keys few s all =
    let held : ℕ → Bytes → Bool = λ sid key. is_some (seen sid key) in
    let sum = total-all_shards threads held own keys in
    let parts =
      sum_parts-Sums threads has seen keys few (all_shards threads) 0 s
        (all_shards-Below threads own)
        (omega (arith, sum, hits_bound (λ key. held (home threads key) key) keys)) all in
    let n = hits (λ key. held (home threads key) key) keys in
    let rs = integer (pos n) ∷ [] in
    record {
      after = record parts.after {
        reply_buf = parts.after.reply_buf ++ render_all threads.itoa rs;
      };
      run =
          bind_lem
            (sum_parts threads (string (codes "EXISTS")) (strings keys) (all_shards threads)
              (pos 0))
            (λ total. reply threads (integer total ∷ [])) s
            (pos (0 + total threads held (all_shards threads) keys)) parts.after parts.run
          ∙ ap (λ m. reply threads (integer (pos m) ∷ []) parts.after) (omega (arith, sum));
      buffer = ap (λ b. b ++ render_all threads.itoa rs) parts.buffer;
      shows = parts.shows;
    }
