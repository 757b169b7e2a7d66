-- ===== src/Workers.antt =====
-- The workers of the clients: their queues and circuit breakers, the orders for a signal, and the
-- pool that hands signals out.
pub mod Circuit
pub mod Branches
pub mod Cooldown
pub mod Orders
pub mod Sizing
pub mod Pool
mod Tests
pub mod Ledger
