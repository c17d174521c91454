-- ===== src/Validation.antt =====
-- The falsification layer (quantlab/validation): gates, verdicts, lockbox, trials, partitions.
pub mod Gates
pub mod Holdout
pub mod Trials
pub mod Partitions
