-- ===== src/Sends.antt =====
-- The outgoing queue of a socket: backend/websocket/safety/backpressure.js.
pub mod Line
pub mod Step
pub mod Busy
pub mod Sound
pub mod Order
pub mod Marks
pub mod Stuck
pub mod Flow
pub mod Drain
mod Tests
