-- ===== src/Space.antt =====
-- The pool of a continuous virtual space of src/cvspool.c: the numbers of its nodes.
pub mod NodeId
pub mod Ids
mod Tests
