-- ===== src/Facade.antt =====
-- crates/shrikedb-facade: the RESP2 protocol.
pub mod Resp
pub mod Parser
mod Tests
pub mod Reply
