-- ===== src/Server/Commands.antt =====
-- commands/*.rs: the handlers of the command families.
pub mod Strings
pub mod Generic
pub mod Lists
pub mod Typed
pub mod Sets
pub mod Hashes
