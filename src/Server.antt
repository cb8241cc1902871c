-- ===== src/Server.antt =====
-- crates/shrikedb-server: the databases of a shard, the commands, their registry and the sharding.
pub mod DbSlice
pub mod Glob
pub mod Context
pub mod Commands
pub mod Registry
pub mod Sharding
pub mod Router
mod Tests
