-- ===== src/Tests.antt =====
-- Runs of the model on concrete machines: the theorems at concrete data.
pub mod Machines
pub mod Install
pub mod Uninstall
pub mod Tables
pub mod Publisher
pub mod Waiting
pub mod Bus
pub mod Panel
pub mod Jobs
pub mod SignIn
