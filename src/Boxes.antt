-- ===== src/Boxes.antt =====
-- The boxes of the Leitner system and the session that plays them: src/vs.c, inc/vs.h and
-- `cmd_load` of src/ltsys.c.
pub mod State
pub mod Move
pub mod Chain
pub mod Invariant
pub mod Leave
pub mod Join
pub mod Transfer
pub mod Answer
pub mod Load
pub mod Session
pub mod Go
pub mod Valid
pub mod Loaded
pub mod GoValid
pub mod Stuck
pub mod Restore
pub mod Words
mod Tests
