-- ===== src/Tool.antt =====
-- scripts/tgctl.py: Env the .env file, Settings its checks, Commands what it runs, Systemd the unit, Services the services.
pub mod Env
pub mod Settings
pub mod Commands
pub mod Systemd
pub mod Services
