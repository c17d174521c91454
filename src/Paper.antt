-- ===== src/Paper.antt =====
-- Paper trading (quantlab/paper): the mock broker, recovery from fills, and reconciliation.
pub mod Adapter
pub mod Recovery
pub mod Reconciliation
pub mod Simulation
