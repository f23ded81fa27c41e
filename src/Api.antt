-- ===== src/Api.antt =====
-- The HTTP handlers that create and start runs.
pub mod Webhook
pub mod Rows
pub mod Once
pub mod Batch
pub mod Results
pub mod Again
pub mod Trigger
pub mod Dispatch
pub mod Queue
pub mod Asked
pub mod Submit
pub mod Steps
pub mod Auth
pub mod Guard
