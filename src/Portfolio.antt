-- ===== src/Portfolio.antt =====
-- Portfolios (quantlab/portfolio): selection, weighting, construction, the risk engine and its
-- constraints, and the planner of orders.
pub mod Constraints
pub mod Planner
pub mod Selection
pub mod Weighting
pub mod Construction
pub mod Risk
