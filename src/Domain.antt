-- ===== src/Domain.antt =====
-- The domain entities and their validation (quantlab/domain).
pub mod Identity
pub mod Orders
pub mod Market
pub mod Portfolio
