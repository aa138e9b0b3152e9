-- ===== src/Ports.antt =====
-- The port manager of pkg/core/port_manager.go.
pub mod Manager
pub mod Tables
pub mod Mapping
pub mod Agree
