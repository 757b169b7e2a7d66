-- ===== src/Indicators.antt =====
-- The indicators of the pool of strikes: the minute series of each option.
pub mod Engine
pub mod Pair
pub mod Floor
pub mod Groups
pub mod Resampled
pub mod Aligned
mod Tests
