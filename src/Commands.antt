-- ===== src/Commands.antt =====
-- The command line of src/main.c and the command table of inc/ltsys.h.
pub mod Table
pub mod Names
pub mod Args
pub mod Words
pub mod Redirect
pub mod Round
pub mod Lines
pub mod Piped
pub mod Output
pub mod Modify
pub mod Refused
mod Tests
