-- ===== src/Sources.antt =====
-- validator/sources: candidates, connectors and their registry.
pub mod Candidate
pub mod Connectors
pub mod Registry
