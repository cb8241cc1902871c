-- ===== src/Core/Dash.antt =====
-- crates/shrikedb-core/src/dash: the hash table. `Bits` has the operations on machine words,
-- `SlotBitmap` and `Bucket` are bucket.rs, `Segment` is segment.rs.
pub mod Bits
pub mod SlotBitmap
pub mod Bucket
pub mod Segment
mod Tests
