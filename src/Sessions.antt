-- ===== src/Sessions.antt =====
-- The connection manager of pkg/core/tcp_manager.go and the physical IDs it reads.
pub mod PhysicalId
pub mod PhysicalIdLaws
pub mod State
pub mod Index
pub mod Registry
pub mod Registration
pub mod Activity
pub mod Watch
pub mod Invariant
pub mod Kept
pub mod Members
pub mod KeptDevices
pub mod KeptActivity
pub mod KeptWatch
pub mod Runs
pub mod Evict
pub mod Stored
pub mod Admission
pub mod Heartbeat
