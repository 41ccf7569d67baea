-- ===== src/Checkout.antt =====
-- The checkout of a cart (apps/api/src/modules/orders/orders.service.ts).
pub mod Model
pub mod Pricing
pub mod Orders
pub mod Keys
pub mod Totals
pub mod Placed
pub mod Amounts
pub mod Once
pub mod Issuable
pub mod Joined
mod Examples
