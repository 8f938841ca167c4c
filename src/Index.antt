-- ===== src/Index.antt =====
-- The index of a vocabulary file: `cmd_mkidx` of src/ltsys.c makes it, `ltsys_init` of src/vs.c reads
-- the lines that it leads to.
pub mod Make
pub mod Lines
mod Tests
