-- ===== src/Orders.antt =====
-- The order manager: pkg/gateway/order_manager.go.
pub mod Key
pub mod Manager
pub mod Invariant
pub mod Effects
pub mod Expiry
pub mod Lasting
