-- ===== src/Allocation/Outcome.antt =====
-- What a transaction of the engine that returned has found and done.
mod Parts
mod Started
mod Requested
mod Changed
pub use Parts.*
pub use Started.*
pub use Requested.*
pub use Changed.*
