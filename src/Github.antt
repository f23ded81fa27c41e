-- ===== src/Github.antt =====
-- integrations/github_client.py
pub mod Paths
pub mod Diff
pub mod Apply
pub mod Validate
pub mod Client
