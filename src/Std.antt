-- ===== src/Std.antt =====
-- What the program uses of Rust's standard library: byte strings, UTF-8, `trim`, `to_uppercase`,
-- and the decimal text of machine integers.
pub mod Bytes
pub mod Text
pub mod Integer
pub mod HashSet
