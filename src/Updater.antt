-- ===== src/Updater.antt =====
-- scripts/tg_update.py: Commands what it runs, Candidate the preparation, Switch the update.
pub mod Commands
pub mod Images
pub mod Candidate
pub mod Switch
pub mod Quiet
pub mod Journal
