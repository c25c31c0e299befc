-- ===== src/System/Invariant.antt =====
-- src/main.c: who owns a game, as an invariant of the steps of the module.
pub mod Counts
pub mod Owned
pub mod Update
pub mod Timers
pub mod Workers
pub mod Commit
pub mod Device
pub mod Finish
pub mod Reached
