-- ===== src/Matrix.antt =====
-- The matrix engine: the candles that are built from the ticks, and the reset at an opening gap.
pub mod Candle
pub mod Series
pub mod Windows
pub mod Refines
pub mod Partition
pub mod Cache
pub mod Gap
mod Tests
