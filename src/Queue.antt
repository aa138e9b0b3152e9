-- ===== src/Queue.antt =====
-- The command queue of pkg/network/command_queue.go.
pub mod State
pub mod Runs
pub mod Channels
pub mod Counters
