-- ===== src/Outbox.antt =====
-- The delivery of outbox events by the worker (apps/worker/src/outbox-processor.ts).
pub mod Model
pub mod Dispatch
pub mod Process
pub mod Retries
pub mod Delivery
pub mod Fits
pub mod Attempt
pub mod Ends
mod Examples
