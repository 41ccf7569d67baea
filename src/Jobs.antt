-- ===== src/Jobs.antt =====
-- The automation jobs (packages/database/src/domain/automation-engine.ts).
pub mod Model
pub mod Claim
pub mod Enqueue
pub mod Attempts
pub mod Sent
mod Examples
