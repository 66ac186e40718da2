-- ===== src/Tests.antt =====
-- Runs of the model on concrete inputs.
pub mod Sample
pub mod Rank
pub mod Tunnel
pub mod Connect
pub mod Feeds
pub mod Publish
pub mod Chunks
pub mod Machines
pub mod Updating
pub mod Checking
pub mod Replies
pub mod Validating
pub mod Databases
