-- ===== src/Strikes.antt =====
-- The subscriptions of option strikes: the window around the spot price, the pins of open
-- positions, and the cleanup behind a closed position.
pub mod Sets
pub mod Rebalancer
pub mod Cleanup
pub mod Pinned
pub mod Sequences
pub mod Counts
mod Tests
