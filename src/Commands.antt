-- ===== src/Commands.antt =====
-- The command manager: pkg/network/command_manager.go.
pub mod Manager
pub mod Retry
pub mod Bounds
pub mod Runs
pub mod Expiry
