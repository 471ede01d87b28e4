-- ===== src/Tests.antt =====
-- Runs of the model at concrete inputs, and each theorem of the results applied at one.
pub mod Platform
pub mod Diff
pub mod Sync
pub mod Snapshots
pub mod Server
pub mod Auth
pub mod System
pub mod Routing
pub mod Start
pub mod Encoding
pub mod Disk
