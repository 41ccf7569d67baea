-- ===== src/Entitlement.antt =====
-- The entitlement engine (packages/database/src/domain/entitlement-engine.ts).
pub mod Model
pub mod Calendar
pub mod Days
pub mod Dates
pub mod Policy
pub mod Issue
pub mod Issued
pub mod Once
pub mod Ranges
pub mod Rights
pub mod Expire
pub mod Expired
mod Examples
