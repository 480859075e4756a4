-- ===== src/Connections.antt =====
-- The connections of the server: backend/websocket/connection/connectionManager.js and
-- connection/lifecycle.js.
pub mod State
pub mod Manager
pub mod Held
pub mod Online
pub mod Step
pub mod Calls
pub mod Presence
mod Tests
