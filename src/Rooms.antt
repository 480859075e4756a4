-- ===== src/Rooms.antt =====
-- Group rooms: backend/websocket/state/roomManager.js.
pub mod Objects
pub mod ObjectKeys
pub mod State
pub mod Roles
pub mod Ops
pub mod Leave
pub mod Admin
pub mod Step
pub mod Index
pub mod IndexSets
pub mod Consistent
pub mod Views
pub mod Load
pub mod Listing
pub mod Access
pub mod Seniority
pub mod Succession
pub mod Restore
pub mod Growth
pub mod Versions
pub mod Atomic
pub mod Defects
mod Samples
mod Tests
