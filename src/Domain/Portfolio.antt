-- ===== src/Domain/Portfolio.antt =====
-- Target portfolios and snapshots (quantlab/domain/portfolio.py): no instrument is held twice.
pub mod Unique
pub mod Checks
use quantlab_v.Prelude.{true, false, Option, List, [], ◌∷◌, map, contains, Text}
use quantlab_v.Prelude.Result.{◌>>◌, Result, ok, err, duplicate_instrument}
use quantlab_v.Time.{DateTime}
use quantlab_v.Decimal.{Decimal}
use quantlab_v.Domain.Identity.{
  InstrumentId, require_nonempty, require_timezone_aware, require_nonnegative_decimal, if_some,
}

pub record TargetPosition : Type 0 where
  pub instrument_id : InstrumentId
  pub target_weight : Decimal
  pub target_quantity : Option Decimal

-- `TargetPosition.__post_init__`
unfoldable pub new_target_position : TargetPosition → Result TargetPosition
new_target_position p = do
  require_nonnegative_decimal p.target_weight
  if_some p.target_quantity require_nonnegative_decimal
  ok p

-- the loop of `_require_unique_instruments`; `seen` is the set
unfoldable pub unique_from : List InstrumentId → List InstrumentId → Result (Unit {0})
unique_from seen [] = ok tt
unique_from seen (i ∷ ids) = elim (contains i seen) [
  | true ↦ err duplicate_instrument
  | false ↦ unique_from (i ∷ seen) ids
]

unfoldable pub require_unique_instruments : List InstrumentId → Result (Unit {0})
require_unique_instruments ids = unique_from [] ids

pub record TargetPortfolio : Type 0 where
  pub portfolio_id : Text
  pub decision_time : DateTime
  pub positions : List TargetPosition
  pub source_alpha_snapshot_id : Text

-- `TargetPortfolio.__post_init__`
unfoldable pub new_target_portfolio : TargetPortfolio → Result TargetPortfolio
new_target_portfolio p = do
  require_nonempty p.portfolio_id
  require_timezone_aware p.decision_time
  require_unique_instruments (map (λ (x : TargetPosition). x.instrument_id) p.positions)
  require_nonempty p.source_alpha_snapshot_id
  ok p

pub record Position : Type 0 where
  pub instrument_id : InstrumentId
  pub quantity : Decimal
  pub cost_basis : Decimal
  pub market_value : Decimal

pub record PortfolioSnapshot : Type 0 where
  pub portfolio_id : Text
  pub as_of : DateTime
  pub cash : Decimal
  pub positions : List Position

-- `PortfolioSnapshot.__post_init__`
unfoldable pub new_snapshot : PortfolioSnapshot → Result PortfolioSnapshot
new_snapshot p = do
  require_nonempty p.portfolio_id
  require_timezone_aware p.as_of
  require_unique_instruments (map (λ (x : Position). x.instrument_id) p.positions)
  ok p
