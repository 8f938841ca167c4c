-- ===== src/Util.antt =====
-- src/util.c: the text helpers and the hash of a name.
pub mod Strip
pub mod Decimal
pub mod Hash
pub mod HashLaws
mod Tests
