-- ===== src/Server/Router/MultiGet.antt =====
-- MGET on several shards: `dispatch_mget` of shard_thread.rs answers what the shards show.
pub mod Gather
use mathlib.Core.Path.{subst}
use shrikedb.Prelude.{
  ℕ, zero, suc, ◌+◌, ◌≡◌, ◌≢◌, ◌≤◌, ◌<◌, refl, ap, sym, ◌∙◌, ◌⊎◌, Bool, true, false, Bool-cases,
  inl, inr, Option, none, some, List, [], ◌∷◌, ◌++◌, map, ◌==◌, if◌then◌else◌, length, length-map,
  get_elem?, set, replicate, get_elem?-set_ne, arith,
}
use shrikedb.Std.Bytes.{Bytes, codes}
use shrikedb.Std.Integer.{i64_max}
use shrikedb.Facade.Resp.{RespArgs}
use shrikedb.Facade.Reply.{Reply, Itoa, array_len, value_reply, render_all}
use shrikedb.Server.DbSlice.View.{Visible}
use shrikedb.Server.Context.{EngineShard, tail}
use shrikedb.Server.Context.Laws.{strings, get_elem?-set_present}
use shrikedb.Server.Commands.Strings.MultiGet.{bytes_seen, values_seen, cmd_mget-Sends}
use shrikedb.Server.Commands.Strings.{cmd_mget}
use shrikedb.Server.Router.{Threads, Cluster, R, extend, ◌>>=◌, ◌>>◌, reply}
use shrikedb.Server.Router.Replies.{parse_resp_array}
use shrikedb.Server.Router.Replies.Laws.{ValueIsShort, AllShort, parse_resp_array-render}
use shrikedb.Server.Router.Dispatch.Parts.{
  all_shards, others, range, values_of, keys_of, positions_of, fill, mget_parts, mget_keys,
  dispatch_mget,
}
use shrikedb.Server.Router.MultiGet.Gather.{
  home, part, length-part, filled, gathered, gathered-values, keys_of-strings, fill-nothing,
}
use shrikedb.Server.Router.Dispatch.Serves.{
  HasCommand, command, AllShow, AllShow-set, Answered, Below, all_shards-Below, List-cases,
  length-strings, bind_lem, run_part-Serves,
}

module _ (threads : Threads) (has : HasCommand threads.registry (codes "MGET") cmd_mget)
    (seen : ℕ → Bytes → Visible)
    (short : (sid : ℕ) (key : Bytes) → ValueIsShort (bytes_seen (seen sid key))) where
  abbrev pub value : ℕ → Bytes → Option Bytes
  value sid key = bytes_seen (seen sid key)

  values-AllShort : (sid : ℕ) (ks : List Bytes) → AllShort (values_seen (seen sid) ks)
  values-AllShort sid [] = tt
  values-AllShort sid (k ∷ ks) = (short sid k, values-AllShort sid ks)

  values_of-render :
      (sid : ℕ) (ks : List Bytes)
      → length ks ≤ i64_max
      → values_of (
          render_all threads.itoa
            (array_len (length ks) ∷ map value_reply (values_seen (seen sid) ks)))
        ≡ values_seen (seen sid) ks
  values_of-render sid ks h =
      rw
        (
          sym (length-map ks (value sid)),
          parse_resp_array-render threads.itoa (values_seen (seen sid) ks)
              (omega (arith, length-map ks (value sid))) (values-AllShort sid ks),
        )
        refl

  module _ (ks : List Bytes) (few : length ks < 32767) where
    -- The parts on the shards of a list.
    record Gathers (sids : List ℕ) (results : List (Option Bytes)) (s : Cluster) : Type 0 where
      pub after : Cluster
      pub run :
          mget_parts threads (strings ks) sids results s
          ≡ some (gathered threads value sids ks results, after)
      pub buffer : after.reply_buf ≡ s.reply_buf
      pub shows : AllShow threads after seen
      pub database : after.db_index ≡ s.db_index

    mget_parts-Gathers :
        (sids : List ℕ) (results : List (Option Bytes)) (s : Cluster)
        → Below threads sids
        → AllShow threads s seen
        → Gathers sids results s
    unfolding mget_parts
    mget_parts-Gathers [] results s below all = record {
      after = s;
      run = refl;
      buffer = refl;
      shows = all;
      database = refl;
    }
    mget_parts-Gathers (sid ∷ sids) results s below all = elim (List-cases (part threads sid ks)) [
      | inl nobody ↦
          let next = mget_parts-Gathers sids results s below.1 all in
          record {
            after = next.after;
            run =
                rw
                  (
                    mget_parts,
                    keys_of-strings threads sid ks,
                    nobody,
                    fill-nothing (positions_of threads sid 0 (strings ks)) results,
                  )
                  next.run;
            buffer = next.buffer;
            shows = next.shows;
            database = next.database;
          }
      | inr (k, rest, somebody) ↦
          let (shard, here, shown) = all sid below.0 in
          let size : length (k ∷ rest) ≤ length ks =
            omega (arith, ap length somebody, length-part threads sid ks) in
          let (after, ran, kept) =
            run_part-Serves threads (codes "MGET") cmd_mget has (k ∷ rest) (omega arith)
              (omega arith)
              (λ f. array_len (length (k ∷ rest)) ∷ map value_reply (values_seen f (k ∷ rest)))
              (λ c db h i.
                cmd_mget-Sends c db h i (command (codes "MGET") (k ∷ rest)) (k ∷ rest) refl)
              sid s shard (seen sid) here shown in
          let filled' =
            fill (positions_of threads sid 0 (strings ks)) (values_seen (seen sid) (k ∷ rest))
              results in
          let next =
            mget_parts-Gathers sids filled' (record s { shards = set s.shards sid after }) below.1
              (AllShow-set threads s seen sid shard after all here kept) in
          record {
            after = next.after;
            run =
                rw
                  (
                    mget_parts,
                    keys_of-strings threads sid ks,
                    somebody,
                    ◌>>=◌,
                    ran,
                    values_of-render sid (k ∷ rest) (omega arith),
                  )
                  next.run;
            buffer = next.buffer;
            shows = next.shows;
            database = next.database;
          }
    ]

mget_keys_lem :
    (threads : Threads) (keys : RespArgs) (n : ℕ) (s : Cluster) (results : List (Option Bytes))
    (after : Cluster)
    → length keys ≡ n
    → mget_parts threads keys (all_shards threads) (replicate n none) s ≡ some (results, after)
    → mget_keys threads keys s ≡ reply threads (array_len n ∷ map value_reply results) after
unfolding mget_keys
mget_keys_lem threads keys n s results after e =
    subst
      (λ n.
        mget_parts threads keys (all_shards threads) (replicate n none) s ≡ some (results, after)
        → mget_keys threads keys s ≡ reply threads (array_len n ∷ map value_reply results) after)
      e
      (λ h.
        bind_lem (mget_parts threads keys (all_shards threads) (replicate (length keys) none))
          (λ vs. reply threads (array_len (length keys) ∷ map value_reply vs)) s results after h)

-- MGET of fewer than 32767 keys, which are strings, on several shards, of which the connection's is
-- one: the values that are seen on the shards of the keys, in the order of the keys and not in that of
-- the shards, as strings or null; no shard shows a change. Each shard has the database of the
-- connection, consistent, and the registry has MGET; the lengths of the values are i64s.
pub dispatch_mget-Answered :
    (threads : Threads)
    → threads.shard_id < threads.num_shards
    → HasCommand threads.registry (codes "MGET") cmd_mget
    → (seen : ℕ → Bytes → Visible)
    → ((sid : ℕ) (key : Bytes) → ValueIsShort (bytes_seen (seen sid key)))
    → (args : RespArgs) (keys : List Bytes) → tail args ≡ strings keys
    → length keys < 32767
    → (s : Cluster) → AllShow threads s seen
    → Answered threads s
        (array_len (length keys)
          ∷ map value_reply (map (λ key. bytes_seen (seen (home threads key) key)) keys))
        seen
        (dispatch_mget threads args)
unfolding dispatch_mget mget_keys reply
dispatch_mget-Answered threads own has seen short args keys hk few s all =
    let none_yet = replicate (length keys) none in
    let parts =
      mget_parts-Gathers threads has seen short keys few (all_shards threads) none_yet s
        (all_shards-Below threads own) all in
    let rs =
      array_len (length keys)
      ∷ map value_reply (map (λ key. bytes_seen (seen (home threads key) key)) keys) in
    record {
      after = record parts.after {
        reply_buf = parts.after.reply_buf ++ render_all threads.itoa rs;
      };
      run =
          ap (λ es. mget_keys threads es s) hk
          ∙ mget_keys_lem threads (strings keys) (length keys) s
              (gathered threads (value threads has seen short) (all_shards threads) keys none_yet)
              parts.after (length-strings keys) parts.run
          ∙ ap (λ vs. reply threads (array_len (length keys) ∷ map value_reply vs) parts.after)
              (gathered-values threads (value threads has seen short) (omega arith) keys);
      buffer = ap (λ b. b ++ render_all threads.itoa rs) parts.buffer;
      shows = parts.shows;
    }
