-- ===== src/Persistence.antt =====
-- crates/shrikedb-persistence: the RDB file. `Format` is rdb_format.rs, `Save` is rdb_save.rs with
-- `save_rdb` of snapshot.rs, `Load` is rdb_load.rs. A file is the list of its bytes: the file system
-- and its errors are not modelled.
pub mod Format
pub mod Save
pub mod Load
pub mod RoundTrip
pub mod Termination
mod Tests
