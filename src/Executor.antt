-- ===== src/Executor.antt =====
-- execution_bridge/smart_executor.py and the orders of execution_bridge/base_broker.py that it uses.
pub mod Orders
pub mod Pricing
pub mod Leg
pub mod Polling
pub mod Fills
pub mod Chase
pub mod Legs
pub mod Mock
pub mod Paper
mod Tests
