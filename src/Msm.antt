-- ===== src/Msm.antt =====
-- The dump of data sources of src/msm.c, and its loading.
pub mod Bytes
pub mod Dump
pub mod Load
pub mod Root
pub mod Trip
pub mod Save
pub mod Loaded
pub mod Cvspool
mod Tests
