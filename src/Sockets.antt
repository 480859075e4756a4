-- ===== src/Sockets.antt =====
-- The per-socket safety layer: backend/websocket/safety and backend/websocket/state/socketStateStore.js.
pub mod State
pub mod Limits
pub mod Users
pub mod Gate
pub mod Sliding
pub mod Floods
pub mod Rows
pub mod UserWindows
pub mod UserFloods
pub mod Escalation
pub mod Policy
mod Tests
