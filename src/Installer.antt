-- ===== src/Installer.antt =====
-- crates/installer: measures the machine, judges it, and only then writes units.
pub mod Facts
pub mod Units
pub mod Mounts
pub mod Fstab
pub mod Kernel
pub mod Session
pub mod Plan
pub mod Main
