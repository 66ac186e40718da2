-- ===== src/Workers.antt =====
-- The workers of validator/: one cycle of each over the stored snapshots.
pub mod Ranker
pub mod Fetcher
pub mod Validator
