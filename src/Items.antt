-- ===== src/Items.antt =====
-- The items that ltsys_init of src/vs.c reads from the vocabulary file.
pub mod Replace
pub mod Read
pub mod Laws
pub mod Lines
mod Tests
