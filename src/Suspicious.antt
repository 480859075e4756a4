-- ===== src/Suspicious.antt =====
-- The detector of suspicious behaviour: backend/suspicious/suspicious.detector.js.
pub mod Flags
pub mod Detector
pub mod Calls
pub mod Windows
pub mod Histories
pub mod Counts
pub mod Bursts
mod Tests
