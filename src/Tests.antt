-- ===== src/Tests.antt =====
-- Runs at fixed inputs.
pub mod Data
pub mod Diffs
pub mod Polls
pub mod Examples
pub mod More
pub mod Api
pub mod Routes
pub mod Reports
pub mod Answers
pub mod Auth
pub mod Cluster
pub mod Context
pub mod Held
