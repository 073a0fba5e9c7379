-- ===== src/Probe.antt =====
-- The probe: the crate neo-uptime-node.
pub mod Status
pub mod Ring
pub mod Record
pub mod Db
pub mod Backend
pub mod Report
pub mod Sync
pub mod Manager
pub mod Check
