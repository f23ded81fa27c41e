-- ===== src/Answers.antt =====
-- The parsing of the models' answers. A regular expression is written out as the text functions that
-- find its first match.
pub mod Sections
pub mod Triage
pub mod Scores
pub mod Files
pub mod Known
pub mod Headers
pub mod FailSafe
pub mod Confidence
