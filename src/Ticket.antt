-- ===== src/Ticket.antt =====
-- The rules of support tickets (packages/database/src/domain/ticket-engine.ts).
pub mod Model
pub mod Replies
mod Examples
