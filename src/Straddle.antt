-- ===== src/Straddle.antt =====
-- strategies/straddle_selection.py and strategies/theta_calc.py: which two options are sold.
pub mod Chain
pub mod Best
pub mod Select
pub mod Pool
pub mod Partner
pub mod Balance
pub mod Scored
mod Tests
pub mod Theta
