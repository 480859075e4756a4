-- ===== src/Sessions.antt =====
-- WebSocket sessions: backend/websocket/state/sessionStore.js.
pub mod Session
pub mod Store
pub mod Step
pub mod Choice
pub mod Whole
pub mod Listing
pub mod Kept
pub mod Eviction
mod Tests
