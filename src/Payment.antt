-- ===== src/Payment.antt =====
-- Payments of orders (apps/api/src/modules/payments/payments.service.ts).
pub mod Model
pub mod Events
pub mod Outcome
pub mod Spec
pub mod Repeat
pub mod Paying
pub mod Exact
mod Examples
pub mod Callback
pub mod Sessions
pub mod Reconcile
