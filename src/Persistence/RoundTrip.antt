-- ===== src/Persistence/RoundTrip.antt =====
-- What the loader reads of what the saver wrote.
pub mod Reads
pub mod Strings
pub mod Entries
pub mod Loads
pub mod File
pub mod Snapshot
pub mod Expiry
