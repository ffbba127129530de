-- ===== src/Daemon.antt =====
-- crates/onedrive-daemon.
pub mod AuthState
pub mod Store
pub mod Watcher
pub mod Control
pub mod Bus
pub mod Surface
pub mod Tray
pub mod Jobs
pub mod Enroll
