-- ===== src/Payload.antt =====
-- The command payloads: internal/domain/dny_protocol/message_types.go, with
-- `FormatPhysicalID` of pkg/utils/physical_id_helper.go.
pub mod Defs
pub mod Heartbeats
pub mod Control
pub mod Card
pub mod Reads
pub mod HeartbeatLaws
pub mod PortLaws
pub mod GunLaws
pub mod ControlLaws
pub mod CardLaws
