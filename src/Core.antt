-- ===== src/Core.antt =====
-- crates/shrikedb-core: keys and values, and the hash table.
pub mod Key
pub mod CompactObj
pub mod Contract
pub mod Dash
mod Tests
