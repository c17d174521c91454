-- ===== src/Data.antt =====
-- Point-in-time data (quantlab/data): the store of corporate actions, the adjustment of bars, the
-- store of bars, the histories of symbols, and the facade over them.
pub mod Actions
pub mod Adjust
pub mod Query
pub mod Fundamentals
pub mod Macro
pub mod Quality
pub mod Symbols
pub mod Bars
pub mod Facade
