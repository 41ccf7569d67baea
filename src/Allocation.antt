-- ===== src/Allocation.antt =====
-- The engine for licences that an external provider manages
-- (packages/database/src/domain/allocation-engine.ts).
pub mod Model
pub mod Requests
pub mod Review
pub mod Accounts
pub mod Reconcile
pub mod Seats
pub mod Outcome
pub mod Leave
pub mod Enter
pub mod Capacity
pub mod Calls
pub mod Lifecycle
pub mod Endings
pub mod Statuses
pub mod Settled
pub mod Truth
pub mod Secrets
pub mod Clean
pub mod Granted
mod Examples
