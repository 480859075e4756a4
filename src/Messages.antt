-- ===== src/Messages.antt =====
-- The messages: models/message.state.js, storage/message.store.js, services/message.service.js,
-- services/delivery.service.js and services/replay.service.js under backend/.
pub mod Life
pub mod Rows
pub mod Queries
pub mod Delivery
pub mod Service
pub mod Receipts
pub mod RoomCounts
pub mod Replay
pub mod Handler
pub mod Step
pub mod Stored
pub mod Calls
pub mod Timers
pub mod Outcomes
pub mod Backed
pub mod Moves
pub mod Reached
pub mod Acks
pub mod Offered
pub mod Waiting
pub mod Forward
pub mod Onward
pub mod Lifecycle
pub mod Once
pub mod Pages
pub mod Reading
pub mod Restart
pub mod Known
pub mod KnownOn
pub mod Resend
mod Tests
