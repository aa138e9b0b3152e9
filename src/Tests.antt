-- ===== src/Tests.antt =====
-- Runs of the code on concrete inputs, and the theorems applied to them.
mod WireRuns
mod ChargingRuns
mod OrderRuns
mod PayloadRuns
mod CommandRuns
mod SessionRuns
mod QueueRuns
mod HeartbeatRuns
mod PortRuns
