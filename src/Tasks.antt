-- ===== src/Tasks.antt =====
-- The background tasks of the program, one round of each.
pub mod Poller
pub mod Recorded
pub mod Pruner
