-- ===== src/Enums.antt =====
-- inc/enum_factory.h, the enum tables of inc/glue.h and inc/glue_eng.h, and the table `gi_eng` of
-- src/glue_eng.c.
pub mod Factory
pub mod Uw
pub mod Types
pub mod Lookup
pub mod Tables
pub mod Offsets
pub mod Entries
pub mod GlueInfo
mod Tests
