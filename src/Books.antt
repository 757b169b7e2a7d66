-- ===== src/Books.antt =====
-- strategies/straddle_book_manager.py and strategies/trap_book_manager.py: one running strategy, a
-- book, for every deployment that the database says is running.
pub mod Wanted
pub mod Reconcile
pub mod Managers
pub mod Running
mod Tests
