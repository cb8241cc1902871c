-- ===== src/Lib.antt =====
-- ShrikeDB, a Redis-compatible in-memory store: the data model, the databases of a shard with their
-- expiry, the string, generic, list, set and hash commands, the registry that dispatches them, the
-- sharding of keys, and the RDB files of a snapshot.
--
-- A request reaches a shard as a list of RESP expressions. The registry finds the handler of its
-- first word and checks the number of arguments; the handler reads and writes the selected database
-- of the shard and sends replies. A database is two tables with the same keys, one of values and
-- one of deadlines; a key whose deadline has come is removed by the next lookup, or by a sweep.
--
-- Prelude       shared names, the Boolean tests, lists over the native numbers, the integers
-- Std           what the program uses of Rust's library: Std.Bytes, Std.Text (UTF-8, trim, case),
--               Std.Integer (i64 and u64, their texts), Std.HashSet (a set as the list of its
--               members)
-- Core          crates/shrikedb-core/src: Core.CompactObj is compact_obj.rs, with `new_key` for
--               `PrimeKey::new`; Core.Contract is what the server relies on in `DashTable`
--               (dash/table.rs), a finite map with an order of iteration, and `scan`; Core.Dash
--               has the buckets and segments of that table: Core.Dash.SlotBitmap and
--               Core.Dash.Bucket are dash/bucket.rs, with `new_bucket` for `Bucket::new`, and
--               Core.Dash.Segment is dash/segment.rs, with `new_segment` for `Segment::new`
--               and `iter`, `has_capacity` and `split` in Core.Dash.Segment.Split
-- Facade        crates/shrikedb-facade/src: Facade.Resp has the expressions of resp_parser.rs and
--               Facade.Parser its parser, with `init` for `State::Init`, `run` for the loop of
--               `parse`; Facade.Reply is reply_builder.rs
-- Server        crates/shrikedb-server/src: Server.DbSlice is db_slice.rs and db_table.rs, one
--               function for each method; Server.DbSlice.Scan has SCAN and KEYS; Server.Glob is
--               `glob_match`; Server.Context is `CommandContext` with engine_shard.rs and the
--               connection's conn_context.rs; Server.Commands.Strings, Generic, Lists, Sets and
--               Hashes are commands/string_family.rs, generic_family.rs, list_family.rs,
--               set_family.rs and hash_family.rs, one `cmd_` function for each handler, and
--               Server.Commands.Typed the shapes that those of sets and hashes have in common;
--               Server.Registry is command_registry.rs; Server.Sharding is sharding.rs;
--               Server.Router is shard_thread.rs with `classify_command` and the reply parsers of
--               main_service.rs, the name of each method, and `load_entries` of
--               engine_shard_set.rs as `shard_entries`
-- Persistence   crates/shrikedb-persistence/src: Persistence.Format is rdb_format.rs,
--               Persistence.Save is rdb_save.rs with `save_rdb` of snapshot.rs, Persistence.Load
--               is rdb_load.rs; a file is the list of its bytes; Persistence.RoundTrip is what the
--               loader makes of the saver's bytes
--
-- A handler is a function from a context to the next context. A panic of the source (an `unwrap`,
-- an index out of range) is `none`. Arithmetic on u64 wraps at 2 ^ 64, as in a release build; a sum
-- on i64 is checked where the source checks it. The time is an argument: the shard sets it before
-- it runs a command. Server.DbSlice.View is what a client can see of a database at a time, and the
-- laws of the operations are about that view. Server.Router.MultiGet and
-- Server.Router.Sum are about MGET and EXISTS on several shards.
--
-- The loop of `parse` runs on the fuel 2 * the length of the buffer + 2: a round takes bytes, or
-- goes from `State::Init` to `State::Inline`. The loop of `load_all` runs on the number of the
-- bytes + 1, of which a round takes one at least. Every other loop is structural but that of the
-- glob matcher, which runs on the fuel `rounds`, one more than (the length of the input + 1) * (the
-- length of the pattern + 1); Server.Glob.Termination is about that fuel. The text of a u64 has at
-- most 20 digits, the fuel of `decimal`. A loop over the bits of a mask of a bucket has the fuel
-- 32, the bits of a u32, and takes one bit in each round. An array of a bucket or a segment is a
-- function of the index: the source indexes it in range.
--
-- The crate itoa is the record `Itoa`, with its documented result. `to_lowercase` changes ASCII
-- letters only: it is used in the texts of errors. Floating-point numbers are bit patterns, so that
-- INCRBYFLOAT, HINCRBYFLOAT and the sorted sets are not modelled. Memory is unbounded: the loader's
-- `vec![0u8; len]` does not fail. A HashSet or HashMap is iterated in the order of its list.
-- Sockets, threads, channels and files are not modelled, nor, so far, are the choice of a segment
-- and the growth in dash/table.rs (so that Core.Contract is not derived from Core.Dash), nor
-- `MainService`, which repeats the routing of shard_thread.rs. A command that is split between
-- shards runs its parts one after another, with no command of another connection between them; the
-- shards take their parts in the order of their numbers, where the source has the order of a
-- HashMap. The loop of `parse_resp_array` runs on the number of the bytes, of which a round takes
-- one at least.
pub mod Prelude
pub mod Std
pub mod Core
pub mod Facade
pub mod Persistence
pub mod Server
