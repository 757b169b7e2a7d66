-- ===== src/Risk.antt =====
-- management/risk_manager.py: positions from fills, the equity and the drawdown of each client, the
-- slippage, and the liquidation of clients.
pub mod Amount
pub mod Position
pub mod Client
pub mod Manager
pub mod Kill
mod Tests
pub mod Apart
