-- ===== src/Server/Commands/Lists.antt =====
-- list_family.rs. A `VecDeque` is the list of its items from front to back. `Edits` has what the
-- commands do to a list, `Commands` the handlers.
pub mod Edits
pub mod Commands
pub mod Laws
pub mod Push
