-- ===== src/Trap.antt =====
-- strategies/trap_scanner/scanner.py, the detection of trapped sellers and buyers in a series of
-- bars, one module for each function or pair of functions.
pub mod Bars
pub mod Scan
pub mod Ltf
pub mod Pick
pub mod Replay
pub mod Backtest
mod Tests
