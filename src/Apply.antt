-- ===== src/Apply.antt =====
-- The stages that write guests to NetBox.
pub mod Changes
pub mod NetBox
pub mod Patched
pub mod Machines
pub mod Containers
pub mod Stages
