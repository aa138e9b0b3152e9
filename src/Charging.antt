-- ===== src/Charging.antt =====
-- The charging state machine of a port: pkg/gateway/charging_state_machine.go.
pub mod Machine
pub mod Named
pub mod History
pub mod Runs
pub mod Control
pub mod Accepts
pub mod Machines
pub mod Offline
