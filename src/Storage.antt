-- ===== src/Storage.antt =====
-- The files in which the open positions are kept.
pub mod Positions
pub mod Restart
mod Tests
