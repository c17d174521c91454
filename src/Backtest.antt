-- ===== src/Backtest.antt =====
-- The backtest engine's components (quantlab/backtest).
pub mod Calendar
pub mod Ledger
pub mod Accounting
pub mod Costs
pub mod Broker
pub mod Clock
pub mod Engine
