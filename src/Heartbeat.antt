-- ===== src/Heartbeat.antt =====
-- The heartbeat filter of pkg/gateway/adaptive_heartbeat_filter.go.
pub mod Filter
pub mod Runs
pub mod Followed
pub mod Spacing
