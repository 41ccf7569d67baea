-- ===== src/License.antt =====
-- The internal licence engine (packages/database/src/domain/internal-license-engine.ts).
pub mod Model
pub mod Activation
pub mod Customer
pub mod Admin
pub mod Worker
pub mod Outcome
pub mod Capacity
pub mod Seats
pub mod Provision
pub mod Calls
pub mod RoundTrip
pub mod Revocation
pub mod Sweeps
mod Examples
