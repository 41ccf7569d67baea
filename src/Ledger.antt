-- ===== src/Ledger.antt =====
-- The double-entry ledger (packages/database/src/domain/ledger-engine.ts).
pub mod Model
pub mod Booking
pub mod Orders
pub mod Equation
pub mod Reversal
pub mod Tax
mod Examples
